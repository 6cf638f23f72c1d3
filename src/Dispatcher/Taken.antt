-- ===== src/Dispatcher/Taken.antt =====
-- A round of the dispatcher that has a command to answer (ServerSide/src/Dispatcher.cpp, run).
use networking_programming_p.Base.{
  All, ℕ, suc, ◌<◌, ◌≡◌, refl, ap, ◌∙◌, ◌≢◌, Str, List, [], ◌∷◌, Option, none, some, false, inl,
  inr, arith, ◌==◌, str_eq_iff,
}
use networking_programming_p.Wire.{Arrival, read_command}
use networking_programming_p.OrderedMap.{OrderedMap, find}
use networking_programming_p.Dispatcher.State.{Pointer, Socket, User, World, new_user, update}
use networking_programming_p.Dispatcher.Monad.{
  ◌>>=◌, allocate_user, next_command, branch◌then◌else◌,
}
use networking_programming_p.Dispatcher.Steps.{>>=_step, consumed, update_self, update_ne}
use networking_programming_p.Dispatcher.Caller.{scan_users}
use networking_programming_p.Dispatcher.Consistency.{AreNamed, IsConsistent}
use networking_programming_p.Dispatcher.Consistency.Stable.{scan_users-AreNamed}
use networking_programming_p.Dispatcher.Rooms.Join.{AreConnected}
use networking_programming_p.Dispatcher.Loop.{handle, round}

-- The world once the command was read, with the user that run makes for the request.
unfoldable pub taken : Socket → List Arrival → World → World
taken sock rest w = record w {
  users =
      update (update w.users w.next_user new_user) w.next_user
        (record (update w.users w.next_user new_user w.next_user) { socket = sock });
  next_user = suc w.next_user;
  inbox = update w.inbox sock rest;
}

pub next_command_lem :
    (sock : Socket) (command : ℕ) (rest : List Arrival) (w : World)
    → read_command (w.inbox sock) ≡ (command, rest)
    → next_command sock w ≡ some (command, consumed sock rest w)
unfolding next_command
next_command_lem sock command rest w e =
    ap (λ (r : ℕ × List Arrival). some (r.0, record w { inbox = update w.inbox sock r.1 })) e

pub round-handle :
    (sock : Socket) (command : ℕ) (rest : List Arrival) (w : World)
    → (sock == 0) ≡ false
    → read_command (w.inbox sock) ≡ (command, rest)
    → round sock w ≡ handle command w.next_user (taken sock rest w)
unfolding round taken allocate_user ◌>>=◌
round-handle sock command rest w n e =
    let u = record w { users = update w.users w.next_user new_user; next_user = suc w.next_user } in
    rw (n, branch◌then◌else◌)
      (>>=_step (next_command sock) _ (next_command_lem sock command rest u e))

module _ (sock : Socket) (rest : List Arrival) (w : World) where
  pub taken-socket : ((taken sock rest w).users w.next_user).socket ≡ sock
  unfolding taken
  taken-socket =
      ap (λ (u : User). u.socket) (update_self (update w.users w.next_user new_user) w.next_user _)

  pub taken-user : (p : Pointer) → p < w.next_user → (taken sock rest w).users p ≡ w.users p
  unfolding taken
  taken-user p l =
      update_ne (update w.users w.next_user new_user) w.next_user p _ apart
      ∙ update_ne w.users w.next_user p new_user apart
    where
      apart : w.next_user ≢ p
      apart = omega arith

  pub rooms-taken : (taken sock rest w).rooms ≡ w.rooms
  unfolding taken
  rooms-taken = refl

  pub users_map-taken : (taken sock rest w).users_map ≡ w.users_map
  unfolding taken
  users_map-taken = refl

  pub taken-inbox : (taken sock rest w).inbox sock ≡ rest
  unfolding taken
  taken-inbox = update_self w.inbox sock rest

  -- The loop over users_map finds the same user.
  pub taken-scan_users :
      (last : Option Pointer) (m : OrderedMap Pointer)
      → AreNamed (λ p. (w.users p).name) w.next_user m
      → scan_users (taken sock rest w).users sock last m ≡ scan_users w.users sock last m
  unfolding scan_users
  taken-scan_users last [] a = refl
  taken-scan_users last ((name, p) ∷ m) a = rw (taken-user p a.0.1, taken-scan_users (some p) m a.1)

-- An entry of the map stands under its name and is an object that was made.
pub AreNamed-find :
    (name : Pointer → Str) (next : Pointer) (k : Str) (p : Pointer) (m : OrderedMap Pointer)
    → AreNamed name next m
    → find k m ≡ some p
    → (name p ≡ k) × (p < next)
unfolding find
AreNamed-find name next k p [] a f = cc
AreNamed-find name next k p ((j, q) ∷ m) a f =
    ground (arith, AreNamed-find name next k p m a.1, str_eq_iff j k)

-- The caller was made.
pub caller_made :
    (w : World) (sock : Socket) (caller : Pointer)
    → IsConsistent w
    → scan_users w.users sock none w.users_map ≡ some caller
    → caller < w.next_user
caller_made w sock caller c s =
    elim (scan_users-AreNamed (λ p. (w.users p).name) w.next_user w.users sock none w.users_map
      caller c.users s) [ inl e ↦ cc | inr l ↦ l ]

module _ (sock : Socket) (rest : List Arrival) (w : World) (caller : Pointer) (c : IsConsistent w)
    (s : scan_users w.users sock none w.users_map ≡ some caller) where
  pub taken-caller : (taken sock rest w).users caller ≡ w.users caller
  taken-caller = taken-user sock rest w caller (caller_made w sock caller c s)

  -- The handlers, which look for the socket of the new user, find the caller.
  pub taken-found :
      scan_users
        (taken sock rest w).users
        ((taken sock rest w).users w.next_user).socket
        none
        (taken sock rest w).users_map
      ≡ some caller
  unfolding taken
  taken-found =
      ap (λ (k : Socket). scan_users (taken sock rest w).users k none w.users_map)
        (taken-socket sock rest w)
      ∙ taken-scan_users sock rest w none w.users_map c.users
      ∙ s

  -- What the new user's socket has sent.
  pub taken-heard : (taken sock rest w).inbox ((taken sock rest w).users w.next_user).socket ≡ rest
  taken-heard = ap (taken sock rest w).inbox (taken-socket sock rest w) ∙ taken-inbox sock rest w

  -- The members of a room are as they were.
  pub taken-members :
      (members : OrderedMap Pointer)
      → AreConnected w.users_map members
      → All (λ (e : Str × Pointer). (taken sock rest w).users e.1 ≡ w.users e.1) members
  taken-members [] a = tt
  taken-members ((u, p) ∷ members) a =
      let made = AreNamed-find (λ p. (w.users p).name) w.next_user u p w.users_map c.users a.0 in
      (taken-user sock rest w p made.1, taken-members members a.1)
