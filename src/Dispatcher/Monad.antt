-- ===== src/Dispatcher/Monad.antt =====
-- Actions of the server: state passing with faults. `none` is undefined behaviour: NULL or an
-- unset pointer dereferenced, or a buffer overrun.
use networking_programming_p.Base.{
  ℕ, suc, Str, List, [], ◌∷◌, ◌++◌, length, Option, none, some, Bool, if◌then◌else◌,
}
use networking_programming_p.Wire.{read_command, read_msg, command_bytes, htonl}
use networking_programming_p.OrderedMap.{find}
use networking_programming_p.Dispatcher.State.{
  Pointer, Socket, User, ChatRoom, Packet, World, update,
}

abbrev pub M : Type 0 → Type 0
M A = World → Option (A × World)

unfoldable pub pure : {A : Type 0} → A → M A
pure a w = some (a, w)

-- A field of the dispatcher.
unfoldable pub gets : {A : Type 0} → (World → A) → M A
gets f w = some (f w, w)

unfoldable pub modify : (World → World) → M (Unit {0})
modify f w = some (tt, f w)

-- A pointer that the code goes on to dereference, where `none` is NULL or unset.
unfoldable pub deref : Option Pointer → M Pointer
deref none w = none
deref (some p) w = some (p, w)

-- `user->field` reads the object as it is now.
unfoldable pub load_user : Pointer → M User
load_user p w = some (w.users p, w)

unfoldable pub load_room : Pointer → M ChatRoom
load_room p w = some (w.rooms p, w)

abbrev pub modify_user : Pointer → (User → User) → World → World
modify_user p f w = record w { users = update w.users p (f (w.users p)) }

abbrev pub modify_room : Pointer → (ChatRoom → ChatRoom) → World → World
modify_room p f w = record w { rooms = update w.rooms p (f (w.rooms p)) }

unfoldable pub store_user : Pointer → (User → User) → M (Unit {0})
store_user p f w = some (tt, modify_user p f w)

unfoldable pub store_room : Pointer → (ChatRoom → ChatRoom) → M (Unit {0})
store_room p f w = some (tt, modify_room p f w)

-- What writeCommand and writeMsg send: one packet for each call of `send`.
abbrev pub command_packets : Socket → ℕ → List Packet
command_packets socktowrite command = (socktowrite, command_bytes command) ∷ []

abbrev pub msg_packets : Socket → Str → List Packet
msg_packets socktowrite msg = (socktowrite, htonl (length msg)) ∷ (socktowrite, msg) ∷ []

-- writeCommand
unfoldable pub write_command : Socket → ℕ → M (Unit {0})
write_command socktowrite command w =
    some (tt, record w { sent = w.sent ++ command_packets socktowrite command })

-- writeMsg: one send for the length, one for the text.
unfoldable pub write_msg : Socket → Str → M (Unit {0})
write_msg socktowrite msg w = some (tt, record w { sent = w.sent ++ msg_packets socktowrite msg })

-- A test between two actions.
infix 1 branch◌then◌else◌
unfoldable pub branch◌then◌else◌ : {A : Type 0} → Bool → M A → M A → M A
branch◌then◌else◌ b m n w = if b then m w else n w

-- A test for NULL, or for the end iterator.
unfoldable pub on_option : {A B : Type 0} → Option B → M A → (B → M A) → M A
on_option none m f w = m w
on_option (some b) m f w = f b w

infixl 5 ◌>>=◌ ◌>>◌
-- To open it is to open the actions above, which need nothing but the state to compute.
unfoldable pub ◌>>=◌ : {A B : Type 0} → M A → (A → M B) → M B
unfolding pure gets modify load_user load_room store_user store_room write_command write_msg
    branch◌then◌else◌ on_option
◌>>=◌ m f w = elim (m w) [ none ↦ none | some (a, w') ↦ f a w' ]

abbrev pub ◌>>◌ : {B : Type 0} → M (Unit {0}) → M B → M B
m >> k = m >>= λ _. k

-- `users_map[name]` where the result is dereferenced at once: on a missing key the operator
-- inserts NULL, so the dereference is undefined.
unfoldable pub user_at : Str → M Pointer
user_at name w = elim (find name w.users_map) [ none ↦ none | some p ↦ some (p, w) ]

unfoldable pub chatroom_at : Str → M Pointer
chatroom_at name w = elim (find name w.chatrooms_map) [ none ↦ none | some p ↦ some (p, w) ]

-- readCommand
unfoldable pub next_command : Socket → M ℕ
next_command socktoread w =
    let (command, rest) = read_command (w.inbox socktoread) in
    some (command, record w { inbox = update w.inbox socktoread rest })

-- readMsg
unfoldable pub read : Socket → M Str
read socktoread w = elim (read_msg (w.inbox socktoread)) [
  | none ↦ none
  | some (msg, rest) ↦ some (msg, record w { inbox = update w.inbox socktoread rest })
]

-- `new User` and `new ChatRoom`
unfoldable pub allocate_user : User → M Pointer
allocate_user u w =
    some
      (w.next_user, record w { users = update w.users w.next_user u; next_user = suc w.next_user })

unfoldable pub allocate_room : ChatRoom → M Pointer
allocate_room r w =
    some
      (w.next_room, record w { rooms = update w.rooms w.next_room r; next_room = suc w.next_room })
