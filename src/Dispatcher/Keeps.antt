-- ===== src/Dispatcher/Keeps.antt =====
-- Invariants of the server's actions. A predicate is stable if the writes that the handlers make
-- outside users_map keep it; then most handlers keep it, one rule for each way to build an action.
pub mod Handlers
use networking_programming_p.Base.{
  ℕ, subst, sym, ◌∙◌, ◌≡◌, refl, Str, List, [], ◌∷◌, Option, none, some, Bool, true, false,
  if◌then◌else◌, Option-cases, inl, inr, arith,
}
use networking_programming_p.Wire.{Arrival, read_msg}
use networking_programming_p.OrderedMap.{insert, erase}
use networking_programming_p.Dispatcher.State.{
  Pointer, Socket, User, ChatRoom, Packet, World, update,
}
use networking_programming_p.Dispatcher.Monad.{
  M, ◌>>=◌, branch◌then◌else◌, on_option, pure, gets, modify, deref, load_user, load_room,
  store_user, store_room, modify_user, modify_room, user_at, write_command, write_msg, read,
  next_command,
}
use networking_programming_p.Dispatcher.Steps.{>>=_step, >>=_fault}
use networking_programming_p.Dispatcher.Caller.{current_user}
use networking_programming_p.Dispatcher.Sessions.{
  address_of, start_session, try_session, open_named, open_session, Found, end_session,
  close_session,
}
use networking_programming_p.Dispatcher.Members.{name-remove_member}
use networking_programming_p.Dispatcher.Rooms.{
  announce, send_members, dismiss, tell_left, leave_room, leave_chatroom,
}
use networking_programming_p.Dispatcher.Listings.{
  write_all, write_list, list_all_users, list_users, list_chatrooms, list_chatroom_users,
}
use networking_programming_p.Dispatcher.Loop.{
  tell_closed, tell_exited, exit_room, disconnect, user_exit,
}

-- `m` keeps `P` whenever it does not fault.
pub record Keeps {A : Type 0} (P : World → Type 0) (m : M A) : Type 0 where
  pub at : (w v : World) (a : A) → m w ≡ some (a, v) → P w → P v

pub record IsStable (P : World → Type 0) : Type 0 where
  pub on_sent : (w : World) (packets : List Packet) → P w → P (record w { sent = packets })
  pub on_inbox : (w : World) (q : Socket → List Arrival) → P w → P (record w { inbox = q })
  pub on_user :
      (w : World) (p : Pointer) (f : User → User)
      → ((u : User) → (f u).name ≡ u.name)
      → P w
      → P (modify_user p f w)
  pub on_room :
      (w : World) (p : Pointer) (f : ChatRoom → ChatRoom)
      → ((r : ChatRoom) → (f r).name ≡ r.name)
      → P w
      → P (modify_room p f w)
  pub on_session :
      (w : World) (a b : Str)
      → P w
      → P (record w { in_session_with = insert a b w.in_session_with })
  pub on_session_end :
      (w : World) (a : Str) → P w → P (record w { in_session_with = erase a w.in_session_with })
  pub on_closed_room :
      (w : World) (name : Str) → P w → P (record w { chatrooms_map = erase name w.chatrooms_map })
  pub on_exit : (w : World) (name : Str) → P w → P (record w { users_map = erase name w.users_map })

pub some-state :
    {A : Type 0} {a b : A} {w v : World}
    → ◌≡◌ {A = Option (A × World)} (some (a, w)) (some (b, v))
    → w ≡ v
some-state e = cc

module _ {P : World → Type 0} where
  -- An action that leads to a known world.
  pub Keeps-exact :
      {A : Type 0} {m : M A} (a : World → A) (f : World → World)
      → ((w : World) → m w ≡ some (a w, f w))
      → ((w : World) → P w → P (f w))
      → Keeps P m
  Keeps-exact a f e k = record { at = λ w v b h p. subst P (some-state (sym (e w) ∙ h)) (k w p) }

  pub Keeps-pure : {A : Type 0} (a : A) → Keeps P (pure a)
  unfolding pure
  Keeps-pure a = record { at = λ w v b h p. subst P (some-state h) p }

  pub Keeps-bind :
      {A B : Type 0} (m : M A) (f : A → M B)
      → Keeps P m
      → ((a : A) → Keeps P (f a))
      → Keeps P (m >>= f)
  Keeps-bind m f km kf = record {
    at = λ w v b h p. elim (Option-cases (m w)) [
      | inl e ↦ cc (>>=_fault m f e)
      | inr ((a, u), e) ↦ (kf a).at u v b (sym (>>=_step m f e) ∙ h) (km.at w u a e p)
    ];
  }

  pub Keeps-branch :
      {A : Type 0} (b : Bool) (m n : M A) → Keeps P m → Keeps P n → Keeps P (branch b then m else n)
  unfolding branch◌then◌else◌
  Keeps-branch true m n km kn = record { at = km.at }
  Keeps-branch false m n km kn = record { at = kn.at }

  pub Keeps-on_option :
      {A B : Type 0} (n : M A) (f : B → M A) (o : Option B)
      → Keeps P n
      → ((b : B) → Keeps P (f b))
      → Keeps P (on_option o n f)
  unfolding on_option
  Keeps-on_option n f none kn kf = record { at = kn.at }
  Keeps-on_option n f (some b) kn kf = record { at = (kf b).at }

  pub Keeps-gets : {A : Type 0} (f : World → A) → Keeps P (gets f)
  unfolding gets
  Keeps-gets f = Keeps-exact f (λ w. w) (λ w. refl) (λ w p. p)

  pub Keeps-load_user : (p : Pointer) → Keeps P (load_user p)
  unfolding load_user
  Keeps-load_user p = Keeps-exact (λ w. w.users p) (λ w. w) (λ w. refl) (λ w p. p)

  pub Keeps-load_room : (p : Pointer) → Keeps P (load_room p)
  unfolding load_room
  Keeps-load_room p = Keeps-exact (λ w. w.rooms p) (λ w. w) (λ w. refl) (λ w p. p)

  pub Keeps-deref : (o : Option Pointer) → Keeps P (deref o)
  unfolding deref
  Keeps-deref none = record { at = λ w v a h p. cc }
  Keeps-deref (some q) = Keeps-exact (λ w. q) (λ w. w) (λ w. refl) (λ w p. p)

  pub Keeps-user_at : (name : Str) → Keeps P (user_at name)
  unfolding user_at
  Keeps-user_at name = record { at = λ w v a h p. subst P (ground arith) p }

  pub Keeps-current_user : (sock : Socket) → Keeps P (current_user sock)
  unfolding current_user
  Keeps-current_user sock = Keeps-bind _ _ (Keeps-gets _) Keeps-deref

  pub Keeps-address_of : (sock : Socket) → Keeps P (address_of sock)
  unfolding address_of
  Keeps-address_of sock = Keeps-gets _

pub ruleset keeps_rules = (
  Keeps-pure, Keeps-bind, Keeps-branch, Keeps-on_option, Keeps-gets, Keeps-load_user,
  Keeps-load_room, Keeps-deref, Keeps-user_at, Keeps-current_user, Keeps-address_of,
)

module _ {P : World → Type 0} (s : IsStable P) where
  pub Keeps-write_command : (sock : Socket) (n : ℕ) → Keeps P (write_command sock n)
  unfolding write_command
  Keeps-write_command sock n = Keeps-exact (λ w. tt) _ (λ w. refl) (λ w p. s.on_sent w _ p)

  pub Keeps-write_msg : (sock : Socket) (msg : Str) → Keeps P (write_msg sock msg)
  unfolding write_msg
  Keeps-write_msg sock msg = Keeps-exact (λ w. tt) _ (λ w. refl) (λ w p. s.on_sent w _ p)

  pub Keeps-read : (sock : Socket) → Keeps P (read sock)
  unfolding read
  Keeps-read sock = record {
    at = λ w v a h p. elim (Option-cases (read_msg (w.inbox sock))) [
      | inl e ↦ cc (rw (e, read) at h)
      | inr (m, e) ↦
          subst P (some-state (rw (e, read) at h)) (s.on_inbox w (update w.inbox sock m.1) p)
    ];
  }

  pub Keeps-next_command : (sock : Socket) → Keeps P (next_command sock)
  unfolding next_command
  Keeps-next_command sock = Keeps-exact _ _ (λ w. refl) (λ w p. s.on_inbox w _ p)

  pub Keeps-store_user :
      (p : Pointer) (f : User → User)
      → ((u : User) → (f u).name ≡ u.name)
      → Keeps P (store_user p f)
  unfolding store_user
  Keeps-store_user p f k = Keeps-exact (λ w. tt) _ (λ w. refl) (λ w h. s.on_user w p f k h)

  pub Keeps-store_room :
      (p : Pointer) (f : ChatRoom → ChatRoom)
      → ((r : ChatRoom) → (f r).name ≡ r.name)
      → Keeps P (store_room p f)
  unfolding store_room
  Keeps-store_room p f k = Keeps-exact (λ w. tt) _ (λ w. refl) (λ w h. s.on_room w p f k h)

  pub Keeps-modify : (f : World → World) → ((w : World) → P w → P (f w)) → Keeps P (modify f)
  unfolding modify
  Keeps-modify f k = Keeps-exact (λ w. tt) f (λ w. refl) k

  pub ruleset stable_rules = (
    keeps_rules, Keeps-write_command, Keeps-write_msg, Keeps-read, Keeps-next_command,
    Keeps-store_user, Keeps-store_room, Keeps-modify,
  )
