-- ===== src/Dispatcher/Sessions/Close.antt =====
-- close_session, branch by branch (ServerSide/src/Dispatcher.cpp).
use networking_programming_p.Base.{
  ◌∙◌, ap, ◌≡◌, refl, Str, [], ◌∷◌, ◌++◌, none, some, true, false, arith, Bool-cases, str_eq,
  str_eq_refl, if◌then◌else◌, inl, inr, ◌||◌,
}
use networking_programming_p.OrderedMap.{OrderedMap, find, insert, erase}
use networking_programming_p.Protocol.{session_ended, close_session_error}
use networking_programming_p.Dispatcher.State.{Pointer, User, World, update}
use networking_programming_p.Dispatcher.Monad.{◌>>=◌, command_packets, user_at}
use networking_programming_p.Dispatcher.Steps.{>>=_step, current_user_lem, send}
use networking_programming_p.Dispatcher.Caller.{scan_users, current_user}
use networking_programming_p.Dispatcher.Sessions.{Found, scan_sessions, end_session, close_session}

-- Nobody of this name is in a session.
abbrev pub IsFree : Str → OrderedMap Str → Type 0
IsFree name [] = Unit
IsFree name ((starter, peer) ∷ m) =
    (str_eq starter name ≡ false) × (str_eq peer name ≡ false) × IsFree name m

abbrev pub nobody : Found
nobody = record { partner = []; first = false; second = false }

pub scan_sessions-IsFree :
    (name : Str) (f : Found) (m : OrderedMap Str) → IsFree name m → scan_sessions name f m ≡ f
unfolding scan_sessions
scan_sessions-IsFree name f [] h = refl
scan_sessions-IsFree name f ((starter, peer) ∷ m) h =
    rw (h.0, h.1) (scan_sessions-IsFree name f m h.2)

-- The starter of the one session with its name finds the peer, and the peer finds the starter.
pub scan_sessions_starter :
    (a b : Str) (f : Found) (m : OrderedMap Str)
    → IsFree a m
    → scan_sessions a f (insert a b m) ≡ record f { partner = b; first = true }
unfolding scan_sessions insert
scan_sessions_starter a b f [] h = ground (arith, str_eq_refl a)
scan_sessions_starter a b f ((s, p) ∷ m) h = ground (
  arith,
  str_eq_refl a,
  scan_sessions-IsFree a (record f { partner = b; first = true }) m h.2,
  scan_sessions_starter a b f m h.2,
)

pub scan_sessions_peer :
    (a b : Str) (f : Found) (m : OrderedMap Str)
    → str_eq a b ≡ false
    → IsFree a m
    → IsFree b m
    → scan_sessions b f (insert a b m) ≡ record f { partner = a; second = true }
unfolding scan_sessions insert
scan_sessions_peer a b f [] n h k = ground (arith, str_eq_refl b)
scan_sessions_peer a b f ((s, p) ∷ m) n h k = ground (
  arith,
  str_eq_refl b,
  scan_sessions-IsFree b (record f { partner = a; second = true }) m k.2,
  scan_sessions_peer a b f m n h.2 k.2,
)

erase-IsFree : (a : Str) (m : OrderedMap Str) → IsFree a m → erase a m ≡ m
unfolding erase
erase-IsFree a [] h = refl
erase-IsFree a ((s, p) ∷ m) h = rw h.0 (ap (λ t. (s, p) ∷ t) (erase-IsFree a m h.2))

pub erase-insert : (a b : Str) (m : OrderedMap Str) → IsFree a m → erase a (insert a b m) ≡ m
unfolding erase insert
erase-insert a b [] h = rw str_eq_refl
erase-insert a b ((s, p) ∷ m) h =
    ground (arith, str_eq_refl a, erase-IsFree a m h.2, erase-insert a b m h.2)

-- A user with no session.
abbrev off : User → User
off u = record u { connection_status = false; connected_to_user = none }

-- The world after a session of `self` with `partner` was ended.
unfoldable pub ended : Pointer → Pointer → Str → World → World
ended partner self starter w = record w {
  users =
      update (update w.users partner (off (w.users partner))) self
        (off (update w.users partner (off (w.users partner)) self));
  in_session_with = erase starter w.in_session_with;
  sent = w.sent ++ command_packets (w.users partner).socket session_ended;
}

pub end_session_lem :
    (name : Str) (found : Found) (partner self : Pointer) (w : World)
    → find found.partner w.users_map ≡ some partner
    → find name w.users_map ≡ some self
    → end_session name found w
      ≡ some (tt, ended partner self (if found.first then name else found.partner) w)
unfolding end_session user_at ended ◌>>=◌
end_session_lem name found partner self w h k = ground arith

-- close_session for a caller that is found, on both branches. If the sessions hold the caller's
-- name, and the partner and the caller stand in users_map, then both are put back to no session,
-- the entry of the one that started it is erased, and the partner is told; if the sessions do not
-- hold it, the caller is told that it has no session, and nothing else changes.
pub close_session_lem :
    (w : World) (user caller partner self : Pointer) (found : Found)
    → scan_users w.users (w.users user).socket none w.users_map ≡ some caller
    → scan_sessions (w.users caller).name nobody w.in_session_with ≡ found
    → ((found.first || found.second) ≡ true → find found.partner w.users_map ≡ some partner)
    → ((found.first || found.second) ≡ true → find (w.users caller).name w.users_map ≡ some self)
    → close_session user w
      ≡ some (
        tt,
        if found.first || found.second
            then ended partner self (if found.first then (w.users caller).name else found.partner) w
            else send (command_packets (w.users caller).socket close_session_error) w,
      )
unfolding close_session ◌>>=◌
close_session_lem w user caller partner self found h s p k =
    >>=_step (current_user _) _ (current_user_lem _ w caller h)
    ∙ rw s (elim (Bool-cases (found.first || found.second)) [
      | inl e ↦ rw e (end_session_lem (w.users caller).name found partner self w (p e) (k e))
      | inr e ↦ rw e
    ])
