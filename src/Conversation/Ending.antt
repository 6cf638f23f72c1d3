-- ===== src/Conversation/Ending.antt =====
-- A session that one of its two clients closes, from the request to what the other makes of the
-- answer: Client::closeSession (ClientSide/src/Client.cpp), a round of Dispatcher::run
-- (ServerSide/src/Dispatcher.cpp, close_session), and a round of Client::run.
use networking_programming_p.Base.{
  ℕ, ◌≡◌, refl, ap, ◌∙◌, List, [], ◌∷◌, ◌++◌, append-nil, none, some, Bool, true, false, ◌||◌,
  arith, drop-append, ◌==◌, if◌then◌else◌,
}
use networking_programming_p.Wire.{Arrival, chunk, leftover, read_command, command_bytes}
use networking_programming_p.Wire.RoundTrip.{read_command-command_bytes}
use networking_programming_p.OrderedMap.{find, erase}
use networking_programming_p.Protocol.{
  leave_chatroom, close_session_with_user, close_session_error, session_ended,
}
use networking_programming_p.Dispatcher.State.{Pointer, Socket, User, Packet, World}
use networking_programming_p.Dispatcher.Monad.{◌>>=◌, command_packets}
use networking_programming_p.Dispatcher.Caller.{scan_users}
use networking_programming_p.Dispatcher.Steps.{send}
use networking_programming_p.Dispatcher.Consistency.{IsConsistent}
use networking_programming_p.Dispatcher.Sessions.{Found, scan_sessions}
use networking_programming_p.Dispatcher.Sessions
use networking_programming_p.Dispatcher.Sessions.Close.{nobody, ended, close_session_lem}
use networking_programming_p.Dispatcher.Loop.{handle}
use networking_programming_p.Dispatcher.Loop
use networking_programming_p.Dispatcher.Taken.{
  taken, round-handle, taken-user, taken-caller, taken-found, AreNamed-find,
}
use networking_programming_p.Client.{Client, write_command}
use networking_programming_p.Client.Requests.{close_session}
use networking_programming_p.Client.Run.{switch, round, no_session}
use networking_programming_p.Client.Delivered.{delivered, round_heard, delivered-command_hit}
use networking_programming_p.Conversation.{news, hearing}

news-close_session :
    (c : Client) (rest : List ℕ)
    → c.is_in_session ≡ true
    → c.is_in_chat_room ≡ false
    → news c (close_session c) ++ rest ≡ command_bytes close_session_with_user ++ rest
unfolding close_session
news-close_session c rest s r =
    ap (λ (b : Bool). sending b c.is_in_chat_room) s
    ∙ ap (sending true) r
    ∙ simp (drop-append, append-nil)
  where
    sending : Bool → Bool → List ℕ
    sending in_session in_room =
        news c (
          if in_session
          then if in_room
            then write_command leave_chatroom c
            else record (write_command close_session_with_user c) { is_in_session = false }
          else c)
        ++ rest

-- A session that the dispatcher can end: the caller has one, and its partner is connected.
pub record CanEnd (w : World) (sock : Socket) (caller partner self : Pointer) (found : Found)
    : Type 0 where
  pub consistent : IsConsistent w
  pub connected : (sock == 0) ≡ false
  pub caller_is : scan_users w.users sock none w.users_map ≡ some caller
  pub session_is : scan_sessions (w.users caller).name nobody w.in_session_with ≡ found
  pub has_session : (found.first || found.second) ≡ true
  pub partner_is : find found.partner w.users_map ≡ some partner
  pub self_is : find (w.users caller).name w.users_map ≡ some self

module _ (w : World) (sock : Socket) (caller partner self : Pointer) (found : Found) (rest : List ℕ)
    (q : List Arrival) (can : CanEnd w sock caller partner self found) where
  abbrev v : World
  v = taken sock (leftover rest q) w

  caller_eq : v.users caller ≡ w.users caller
  caller_eq = taken-caller sock (leftover rest q) w caller can.consistent can.caller_is

  partner_eq : v.users partner ≡ w.users partner
  partner_eq =
      let made =
        AreNamed-find (λ p. (w.users p).name) w.next_user found.partner partner w.users_map
          can.consistent.users can.partner_is in
      taken-user sock (leftover rest q) w partner made.1

  -- The world without the session.
  apart : World
  apart = ended partner self (if found.first then (v.users caller).name else found.partner) v

  session_eq : scan_sessions (v.users caller).name nobody v.in_session_with ≡ found
  unfolding taken
  session_eq =
      ap (λ (u : User). scan_sessions u.name nobody w.in_session_with) caller_eq ∙ can.session_is

  partner_found : find found.partner v.users_map ≡ some partner
  unfolding taken
  partner_found = can.partner_is

  self_found : find (v.users caller).name v.users_map ≡ some self
  unfolding taken
  self_found = ap (λ (u : User). find u.name w.users_map) caller_eq ∙ can.self_is

  ending : Sessions.close_session w.next_user v ≡ some (tt, apart)
  unfolding apart
  ending =
      close_session_lem v w.next_user caller partner self found
        (taken-found sock (leftover rest q) w caller can.consistent can.caller_is) session_eq
        (λ h. partner_found) (λ h. self_found)
      ∙ ap
          (λ (b : Bool). some (
            tt,
            if b
                then ended partner self
                    (if found.first then (v.users caller).name else found.partner) v
                else send (command_packets (v.users caller).socket close_session_error) v,
          ))
          can.has_session

  apart-sent : apart.sent ≡ w.sent ++ command_packets (w.users partner).socket session_ended
  unfolding apart ended taken
  apart-sent = ap (λ (u : User). w.sent ++ command_packets u.socket session_ended) partner_eq

  granted :
      w.inbox sock ≡ chunk (command_bytes close_session_with_user ++ rest) ∷ q
      → Loop.round sock w ≡ some (tt, apart)
  unfolding handle ◌>>=◌
  granted e =
      round-handle sock close_session_with_user (leftover rest q) w can.connected (
        ap read_command e ∙ read_command-command_bytes close_session_with_user rest q (omega arith))
      ∙ ending

-- The client that is told that its session has ended.
round-session_ended :
    (s : Socket) (c : Client)
    → round (hearing s (command_packets s session_ended) c)
      ≡ some (no_session (record c { inbox = [] }))
unfolding switch delivered
round-session_ended s c =
    round_heard session_ended [] [] (hearing s (command_packets s session_ended) c) refl
      (omega arith) (ap (λ bs. chunk bs ∷ []) (delivered-command_hit s session_ended []))

-- When what a client in a session writes to close it arrives at the dispatcher, and its user has a
-- session there with a user that is connected, one round of the dispatcher answers it without a
-- fault, the entry of the one that started the session is gone, and what is sent makes the
-- partner's client, in one round, be in no session, and otherwise as it was.
pub round-end_session :
    (w : World) (sock : Socket) (caller partner self : Pointer) (found : Found) (c b : Client)
    (rest : List ℕ) (q : List Arrival)
    → CanEnd w sock caller partner self found
    → c.is_in_session ≡ true
    → c.is_in_chat_room ≡ false
    → w.inbox sock ≡ chunk (news c (close_session c) ++ rest) ∷ q
    → (v : World) × (packets : List Packet) × (Loop.round sock w ≡ some (tt, v))
      × (v.sent ≡ w.sent ++ packets)
      × (v.in_session_with
          ≡ erase (if found.first then (w.users caller).name else found.partner) w.in_session_with)
      × (round (hearing (w.users partner).socket packets b)
          ≡ some (no_session (record b { inbox = [] })))
unfolding apart ended taken
round-end_session w sock caller partner self found c b rest q can i r e = (
  apart w sock caller partner self found rest q can,
  command_packets (w.users partner).socket session_ended,
  granted w sock caller partner self found rest q can
      (e ∙ ap (λ bs. chunk bs ∷ q) (news-close_session c rest i r)),
  apart-sent w sock caller partner self found rest q can,
  ap (λ (u : User). erase (if found.first then u.name else found.partner) w.in_session_with)
      (caller_eq w sock caller partner self found rest q can),
  round-session_ended (w.users partner).socket b,
)
