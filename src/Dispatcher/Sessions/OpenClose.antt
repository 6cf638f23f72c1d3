-- ===== src/Dispatcher/Sessions/OpenClose.antt =====
-- A session that is opened and closed again (ServerSide/src/Dispatcher.cpp, open_session and
-- close_session).
use networking_programming_p.Base.{
  ◌∙◌, ◌≡◌, refl, Str, List, ◌++◌, none, some, Bool, true, false, arith, str_eq, if◌then◌else◌,
  ◌||◌,
}
use networking_programming_p.Wire.{Arrival}
use networking_programming_p.OrderedMap.{find}
use networking_programming_p.Protocol.{session_ended}
use networking_programming_p.Dispatcher.State.{Pointer, Socket, World, update}
use networking_programming_p.Dispatcher.Monad.{◌>>=◌, ◌>>◌, command_packets}
use networking_programming_p.Dispatcher.Steps.{scan_users-eq, >>=_step, current_user_lem}
use networking_programming_p.Dispatcher.Caller.{scan_users, current_user}
use networking_programming_p.Dispatcher.Sessions.{Found, scan_sessions, open_session, close_session}
use networking_programming_p.Dispatcher.Sessions.Open.{
  Asks, asked_of, session_packets, opened, open_session_lem,
}
use networking_programming_p.Dispatcher.Sessions.Close.{
  IsFree, nobody, scan_sessions_starter, scan_sessions_peer, erase-insert, ended, end_session_lem,
}

opened_socket :
    (sock : Socket) (caller target : Pointer) (w : World) (p : Pointer)
    → ((opened sock caller target w).users p).socket ≡ (w.users p).socket
unfolding update opened
opened_socket sock caller target w p = ground arith

opened_name :
    (sock : Socket) (caller target : Pointer) (w : World) (p : Pointer)
    → ((opened sock caller target w).users p).name ≡ (w.users p).name
unfolding update opened
opened_name sock caller target w p = ground arith

-- Two connected users, neither of them in a session.
pub record ArePair (w : World) (caller target : Pointer) : Type 0 where
  pub apart : str_eq (w.users caller).name (w.users target).name ≡ false
  pub caller_known : find (w.users caller).name w.users_map ≡ some caller
  pub target_known : find (w.users target).name w.users_map ≡ some target
  pub caller_free : IsFree (w.users caller).name w.in_session_with
  pub target_free : IsFree (w.users target).name w.in_session_with

close_by :
    (v : World) (user caller partner self : Pointer) (found : Found) (name : Str)
    → scan_users v.users (v.users user).socket none v.users_map ≡ some caller
    → (v.users caller).name ≡ name
    → scan_sessions name nobody v.in_session_with ≡ found
    → (found.first || found.second) ≡ true
    → find found.partner v.users_map ≡ some partner
    → find name v.users_map ≡ some self
    → close_session user v
      ≡ some (tt, ended partner self (if found.first then name else found.partner) v)
unfolding close_session ◌>>=◌
close_by v user caller partner self found name h n s f p k =
    >>=_step (current_user _) _ (current_user_lem _ v caller h)
    ∙ rw (n, s) (rw f (end_session_lem name found partner self v p k))

module _ (sock : Socket) (w : World) (user caller target : Pointer)
    (pair : ArePair w caller target) where
  -- What a session that is closed leaves behind, whoever closes it; `other` is the other side.
  abbrev pub IsClosed : Pointer → World → Type 0
  IsClosed other v =
      ((v.users caller).connection_status ≡ false)
      × ((v.users target).connection_status ≡ false)
      × (v.in_session_with ≡ w.in_session_with)
      × (v.sent
          ≡ (opened sock caller target w).sent
            ++ command_packets (w.users other).socket session_ended)

  still_found :
      (p : Pointer)
      → scan_users w.users (w.users user).socket none w.users_map ≡ some p
      → scan_users
          (opened sock caller target w).users
          ((opened sock caller target w).users user).socket
          none
          (opened sock caller target w).users_map
        ≡ some p
  unfolding opened
  still_found p h = rw (opened_socket sock caller target w user) (
      scan_users-eq (opened sock caller target w).users w.users _ none w.users_map
        (opened_socket sock caller target w)
      ∙ h)

  by_caller :
      scan_users w.users (w.users user).socket none w.users_map ≡ some caller
      → close_session user (opened sock caller target w)
        ≡ some (tt, ended target caller (w.users caller).name (opened sock caller target w))
  unfolding opened
  by_caller h =
      close_by (opened sock caller target w) user caller target caller
        (record { partner = (w.users target).name; first = true; second = false })
        (w.users caller).name (still_found caller h) (opened_name sock caller target w caller)
        (scan_sessions_starter _ _ nobody w.in_session_with pair.caller_free) refl pair.target_known
        pair.caller_known

  by_target :
      scan_users w.users (w.users user).socket none w.users_map ≡ some target
      → close_session user (opened sock caller target w)
        ≡ some (tt, ended caller target (w.users caller).name (opened sock caller target w))
  unfolding opened
  by_target h =
      close_by (opened sock caller target w) user target caller target
        (record { partner = (w.users caller).name; first = false; second = true })
        (w.users target).name (still_found target h) (opened_name sock caller target w target)
        (scan_sessions_peer _ _ nobody w.in_session_with pair.apart pair.caller_free
          pair.target_free)
        refl pair.caller_known pair.target_known

  ended_by_caller :
      IsClosed target (ended target caller (w.users caller).name (opened sock caller target w))
  unfolding opened ended update
  ended_by_caller = (ground arith, ground arith, erase-insert _ _ _ pair.caller_free, ground arith)

  ended_by_target :
      IsClosed caller (ended caller target (w.users caller).name (opened sock caller target w))
  unfolding opened ended update
  ended_by_target = (ground arith, ground arith, erase-insert _ _ _ pair.caller_free, ground arith)

  -- Both cases in one, by who closes.
  closed : Bool → World
  closed true = ended target caller (w.users caller).name (opened sock caller target w)
  closed false = ended caller target (w.users caller).name (opened sock caller target w)

  close-opened :
      (starter : Bool)
      → scan_users w.users (w.users user).socket none w.users_map
        ≡ some (if starter then caller else target)
      → close_session user (opened sock caller target w) ≡ some (tt, closed starter)
  unfolding closed
  close-opened true h = by_caller h
  close-opened false h = by_target h

  closed-IsClosed :
      (starter : Bool) → IsClosed (if starter then target else caller) (closed starter)
  unfolding closed
  closed-IsClosed true = ended_by_caller
  closed-IsClosed false = ended_by_target

-- A session that open_session opens and either side closes. When the caller and the target are
-- connected under different names, in no session and with their flags unset, the caller asks for
-- the target under a name other than the target's, and the side that closes is found, then both
-- requests succeed: both flags are unset again, the sessions are those of before, the caller was
-- sent the target's name and address and the target the caller's, and the side that did not close
-- was told of the end.
pub close_session-open_session :
    (w : World) (user caller target closing : Pointer) (user_name : Str) (rest : List Arrival)
    (starter : Bool)
    → Asks w user caller user_name (w.users target).name rest
    → ArePair w caller target
    → (w.users caller).connection_status ≡ false
    → (w.users target).connection_status ≡ false
    → str_eq user_name (w.users target).name ≡ false
    → scan_users w.users (w.users closing).socket none w.users_map
      ≡ some (if starter then caller else target)
    → (v : World) × ((open_session user >> close_session closing) w ≡ some (tt, v))
      × ((v.users caller).connection_status ≡ false)
      × ((v.users target).connection_status ≡ false)
      × (v.in_session_with ≡ w.in_session_with)
      × (v.sent
          ≡ (w.sent ++ session_packets (w.users user).socket (w.users caller) (w.users target) w)
            ++ command_packets (w.users (if starter then target else caller)).socket session_ended)
unfolding opened
close_session-open_session w user caller target closing user_name rest starter a pair p q n h =
    (closed sock u closing caller target pair' starter, path, state.0, state.1, state.2, state.3)
  where
    sock : Socket
    sock = (w.users user).socket

    u : World
    u = asked_of user rest w

    pair' : ArePair u caller target
    pair' = record {
      apart = pair.apart;
      caller_known = pair.caller_known;
      target_known = pair.target_known;
      caller_free = pair.caller_free;
      target_free = pair.target_free;
    }

    state :
        IsClosed sock u closing caller target pair'
          (if starter then target else caller)
          (closed sock u closing caller target pair' starter)
    state = closed-IsClosed sock u closing caller target pair' starter

    path :
        (open_session user >> close_session closing) w
        ≡ some (tt, closed sock u closing caller target pair' starter)
    path =
        >>=_step (open_session user) (λ _. close_session closing)
          (open_session_lem w user caller target user_name (w.users target).name rest a
              pair.target_known refl
            ∙ rw (p, q, n))
        ∙ close-opened sock u closing caller target pair' starter h
