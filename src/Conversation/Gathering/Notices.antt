-- ===== src/Conversation/Gathering/Notices.antt =====
-- Who hears that a chat room is closed, and what it does to the users and to their clients
-- (ServerSide/src/Dispatcher.cpp, leave_chatroom, and ClientSide/src/Client.cpp,
-- chatroomWasClosed).
use networking_programming_p.Base.{
  ◌≡◌, refl, sym, ap, subst, ◌∙◌, Str, List, [], ◌∷◌, ◌++◌, append_assoc, append-nil, none, some,
  false, arith, All, ◌==◌, Bool-cases, inl, inr, if◌then◌else◌,
}
use networking_programming_p.Wire.{chunk, command_bytes}
use networking_programming_p.OrderedMap.{OrderedMap}
use networking_programming_p.Protocol.{chatroom_was_closed}
use networking_programming_p.Dispatcher.State.{Pointer, Socket, User, Packet, update}
use networking_programming_p.Dispatcher.Monad.{command_packets}
use networking_programming_p.Dispatcher.Steps.{update_self}
use networking_programming_p.Dispatcher.Rooms.Leave.{closed_packets, dismissed}
use networking_programming_p.Client.{Client}
use networking_programming_p.Client.Handlers
use networking_programming_p.Client.Run.{round, switch, no_session}
use networking_programming_p.Client.Delivered.{
  delivered, moved, round_heard, delivered-command_hit, delivered-command_miss,
}
use networking_programming_p.Conversation.Audience.{AreElsewhere}

-- What one member is sent.
abbrev notice : Socket → List Packet
notice s = if s == 0 then [] else command_packets s chatroom_was_closed

pub closed_packets-eq :
    (f g : Pointer → User) (members : OrderedMap Pointer)
    → All (λ (e : Str × Pointer). f e.1 ≡ g e.1) members
    → closed_packets f members ≡ closed_packets g members
closed_packets-eq f g [] a = refl
closed_packets-eq f g ((u, p) ∷ members) a = rw (a.0, closed_packets-eq f g members a.1) refl

delivered-notice_miss :
    (s r : Socket) (ps : List Packet)
    → (r == s) ≡ false
    → delivered s (notice r ++ ps) ≡ delivered s ps
delivered-notice_miss s r ps h = elim (Bool-cases (r == 0)) [
  | inl e ↦ rw e refl
  | inr e ↦ rw e (delivered-command_miss s r chatroom_was_closed ps h)
]

delivered-closed_miss :
    (s : Socket) (users : Pointer → User) (members : OrderedMap Pointer) (ps : List Packet)
    → AreElsewhere s users members
    → delivered s (closed_packets users members ++ ps) ≡ delivered s ps
delivered-closed_miss s users [] ps a = refl
delivered-closed_miss s users ((u, p) ∷ members) ps a =
    ap (delivered s) (append_assoc (notice (users p).socket) (closed_packets users members) ps)
    ∙ delivered-notice_miss s (users p).socket (closed_packets users members ++ ps) a.0
    ∙ delivered-closed_miss s users members ps a.1

closed_packets-append :
    (users : Pointer → User) (before after : OrderedMap Pointer)
    → closed_packets users (before ++ after)
      ≡ closed_packets users before ++ closed_packets users after
closed_packets-append users [] after = refl
closed_packets-append users ((u, p) ∷ before) after =
    rw (closed_packets-append users before after) (sym (append_assoc (notice (users p).socket) _ _))

-- A member on a socket of its own hears of it once.
pub delivered-closed_member :
    (users : Pointer → User) (before after : OrderedMap Pointer) (u : Str) (p : Pointer)
    → ((users p).socket == 0) ≡ false
    → AreElsewhere (users p).socket users before
    → AreElsewhere (users p).socket users after
    → delivered (users p).socket (closed_packets users (before ++ ((u, p) ∷ after)))
      ≡ command_bytes chatroom_was_closed ++ []
unfolding delivered
delivered-closed_member users before after u p z b a =
    let s = (users p).socket in
    let others = closed_packets users after in
    ap (delivered s) (closed_packets-append users before ((u, p) ∷ after))
    ∙ delivered-closed_miss s users before (notice s ++ others) b
    ∙ rw z (
        delivered-command_hit s chatroom_was_closed others
        ∙ ap (λ bs. command_bytes chatroom_was_closed ++ bs)
            (ap (delivered s) (sym (append-nil others)) ∙ delivered-closed_miss s users after [] a))

-- A user that is in no chat room.
abbrev pub IsFree : User → Type 0
IsFree u = (u.connection_status ≡ false) × (u.connected_to_chat_room ≡ none)

-- A user is taken out of its room.
abbrev free_at : (Pointer → User) → Pointer → Pointer → User
free_at users q =
    update users q (record (users q) { connection_status = false; connected_to_chat_room = none })

free_at-IsFree :
    (users : Pointer → User) (q p : Pointer) → IsFree (users p) → IsFree (free_at users q p)
unfolding update
free_at-IsFree users q p f = elim (Bool-cases (q == p)) [
  | inl e ↦ rw e (refl, refl)
  | inr e ↦ rw e f
]

update-IsFree : (users : Pointer → User) (p : Pointer) → IsFree (free_at users p p)
update-IsFree users p =
    let same =
      update_self users p
        (record (users p) { connection_status = false; connected_to_chat_room = none }) in
    subst IsFree (sym same) (refl, refl)

dismissed-IsFree :
    (users : Pointer → User) (members : OrderedMap Pointer) (p : Pointer)
    → IsFree (users p)
    → IsFree (dismissed users members p)
dismissed-IsFree users [] p f = f
dismissed-IsFree users ((u, q) ∷ members) p f =
    dismissed-IsFree (free_at users q) members p (free_at-IsFree users q p f)

pub All-IsFree :
    (users : Pointer → User) (members : OrderedMap Pointer)
    → All (λ (e : Str × Pointer). IsFree (dismissed users members e.1)) members
All-IsFree users [] = tt
All-IsFree users ((u, p) ∷ members) = (
  dismissed-IsFree (free_at users p) members p (update-IsFree users p),
  All-IsFree (free_at users p) members,
)

-- A client that is in no chat room and no session.
abbrev pub IsOut : Client → Type 0
IsOut c =
    (c.is_in_session ≡ false)
    × (c.is_in_chat_room ≡ false)
    × (c.is_room_owner ≡ false)
    × (c.chatroom_partners ≡ [])

pub closed-IsOut : (c : Client) → IsOut (no_session (Handlers.chatroom_was_closed c))
unfolding Handlers.chatroom_was_closed
closed-IsOut c = elim (Bool-cases c.is_room_owner) [
  | inl e ↦ rw e (refl, refl, refl, refl)
  | inr e ↦ rw e (refl, refl, refl, refl)
]

-- A client hears that the room was closed.
pub round-closed :
    (c : Client)
    → c.inbox ≡ chunk (command_bytes chatroom_was_closed ++ []) ∷ []
    → round c ≡ some (no_session (Handlers.chatroom_was_closed (moved [] c)))
unfolding switch
round-closed c e = round_heard chatroom_was_closed [] [] c refl (omega arith) e
