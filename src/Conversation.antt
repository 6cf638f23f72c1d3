-- ===== src/Conversation.antt =====
-- A session from the request of one client to the partners of both: Client::openSession
-- (ClientSide/src/Client.cpp), a round of Dispatcher::run (ServerSide/src/Dispatcher.cpp), and a
-- round of Client::run on either side.
pub mod Entry
pub mod Enrolment
pub mod Audience
pub mod Entering
pub mod Leaving
pub mod Ending
pub mod Tests
pub mod RoomTests
pub mod Gathering
pub mod Listing
use networking_programming_p.Base.{
  ℕ, ◌^◌, ◌<◌, ◌≡◌, refl, sym, ap, subst, ◌∙◌, Str, List, [], ◌∷◌, ◌++◌, append_assoc, append-nil,
  Option, none, some, Bool, true, false, not, ◌&&◌, arith, length, drop, drop-append, ◌==◌, str_eq,
  if◌then◌else◌,
}
use networking_programming_p.Wire.{
  Arrival, chunk, leftover, read_command, read_msg, command_bytes, msg_bytes,
}
use networking_programming_p.Wire.RoundTrip.{read_command-command_bytes}
use networking_programming_p.OrderedMap.{find}
use networking_programming_p.Protocol.{
  open_session_with_user, open_session_error, open_connection_error,
}
use networking_programming_p.Dispatcher.State.{Pointer, Socket, User, Packet, World}
use networking_programming_p.Dispatcher.Monad.{◌>>=◌, branch◌then◌else◌, command_packets}
use networking_programming_p.Dispatcher.Caller.{scan_users}
use networking_programming_p.Dispatcher.Steps.{consumed, send}
use networking_programming_p.Dispatcher.Consistency.{IsConsistent}
use networking_programming_p.Dispatcher.Sessions.Open.{
  Asks, asked_of, opened, session_packets, open_session_lem,
}
use networking_programming_p.Dispatcher.Loop.{handle}
use networking_programming_p.Dispatcher.Loop
use networking_programming_p.Dispatcher.Sessions
use networking_programming_p.Dispatcher.Taken.{
  taken, round-handle, taken-socket, taken-user, taken-inbox, taken-scan_users, AreNamed-find,
  taken-caller, taken-heard, taken-found,
}
use networking_programming_p.Client.{Client}
use networking_programming_p.Client.Requests.{open_session}
use networking_programming_p.Client.Run.{round}
use networking_programming_p.Client.Delivered.{
  delivered, IsReadable, IsPrintable, read_msg-leftover,
}
use networking_programming_p.Client.Sessions.{
  in_session_at, round-session_packets_target, round-session_packets_caller,
}

-- What a client has sent between two of its states, as one stream of bytes.
abbrev pub joined : List (List ℕ) → List ℕ
joined [] = []
joined (bs ∷ bss) = bs ++ joined bss

abbrev pub news : Client → Client → List ℕ
news before after = joined (drop (length before.sent) after.sent)

news-open_session :
    (user_name peer_usr : Str) (c : Client) (rest : List ℕ)
    → news c (open_session user_name peer_usr c) ++ rest
      ≡ command_bytes open_session_with_user
        ++ (msg_bytes user_name ++ (msg_bytes peer_usr ++ rest))
unfolding open_session msg_bytes
news-open_session user_name peer_usr c rest = simp (append_assoc, drop-append, append-nil)

-- A request that the dispatcher can grant: the user that the socket `sock` belongs to and the one
-- with the name `peer` are free, on different sockets, and have names and addresses that can be
-- read.
pub record CanOpen (w : World) (sock : Socket) (caller target : Pointer) (user_name peer : Str)
    : Type 0 where
  pub consistent : IsConsistent w
  pub connected : (sock == 0) ≡ false
  pub caller_is : scan_users w.users sock none w.users_map ≡ some caller
  pub target_is : find peer w.users_map ≡ some target
  pub caller_free : (w.users caller).connection_status ≡ false
  pub target_free : (w.users target).connection_status ≡ false
  pub other_name : str_eq user_name peer ≡ false
  pub other_sockets : (sock == (w.users target).socket) ≡ false
  pub other_sockets_back : ((w.users target).socket == sock) ≡ false
  pub user_name_readable : IsReadable user_name
  pub caller_readable : IsReadable (w.users caller).name
  pub target_readable : IsReadable peer
  pub caller_printable : IsPrintable (w.address sock)
  pub target_printable : IsPrintable (w.address (w.users target).socket)

module _ (w : World) (sock : Socket) (caller target : Pointer) (user_name peer : Str)
    (rest : List ℕ) (q : List Arrival) (can : CanOpen w sock caller target user_name peer) where
  asked : List ℕ
  asked = msg_bytes user_name ++ (msg_bytes peer ++ rest)

  abbrev v : World
  v = taken sock (leftover asked q) w

  user_eq : (p : Pointer) → p < w.next_user → v.users p ≡ w.users p
  user_eq = taken-user sock (leftover asked q) w

  caller_eq : v.users caller ≡ w.users caller
  caller_eq = taken-caller sock (leftover asked q) w caller can.consistent can.caller_is

  target_named : ((w.users target).name ≡ peer) × (target < w.next_user)
  target_named =
      AreNamed-find (λ p. (w.users p).name) w.next_user peer target w.users_map can.consistent.users
        can.target_is

  target_eq : v.users target ≡ w.users target
  target_eq = user_eq target target_named.1

  users_map_eq : v.users_map ≡ w.users_map
  unfolding taken
  users_map_eq = refl

  own_socket : (v.users w.next_user).socket ≡ sock
  own_socket = taken-socket sock (leftover asked q) w

  asks : Asks v w.next_user caller user_name peer (leftover rest q)
  unfolding asked
  asks = record {
    middle = leftover (msg_bytes peer ++ rest) q;
    named =
        ap read_msg (taken-heard sock (leftover asked q) w caller can.consistent can.caller_is)
        ∙ read_msg-leftover user_name (msg_bytes peer ++ rest) q can.user_name_readable;
    asked = read_msg-leftover peer rest q can.target_readable;
    found = taken-found sock (leftover asked q) w caller can.consistent can.caller_is;
  }

  -- The world after the round.
  after : World
  after = opened sock caller target (asked_of w.next_user (leftover rest q) v)

  opening : Sessions.open_session w.next_user v ≡ some (tt, after)
  unfolding after
  opening =
      open_session_lem v w.next_user caller target user_name peer (leftover rest q) asks
        (ap (find peer) users_map_eq ∙ can.target_is)
        (ap (λ (u : User). u.name) target_eq ∙ target_named.0)
      ∙ ap
          (λ (b : Bool).
            outcome b (v.users target).connection_status (str_eq user_name peer)
              (v.users w.next_user).socket)
          (ap (λ (u : User). u.connection_status) caller_eq ∙ can.caller_free)
      ∙ ap (λ (b : Bool). outcome false b (str_eq user_name peer) (v.users w.next_user).socket)
          (ap (λ (u : User). u.connection_status) target_eq ∙ can.target_free)
      ∙ ap (λ (b : Bool). outcome false false b (v.users w.next_user).socket) can.other_name
      ∙ ap (outcome false false false) own_socket
    where
      x : World
      x = asked_of w.next_user (leftover rest q) v

      outcome : Bool → Bool → Bool → Socket → Option (Unit {0} × World)
      outcome mine theirs same s = some (
        tt,
        if not mine && not theirs
            then (if same
                then send (command_packets s open_session_error) x
                else opened s caller target x)
            else send (command_packets s open_connection_error) x,
      )

  after-sent : after.sent ≡ w.sent ++ session_packets sock (w.users caller) (w.users target) w
  unfolding after opened taken
  after-sent =
      ap (λ (u : User). w.sent ++ session_packets sock u (v.users target) w) caller_eq
      ∙ ap (λ (u : User). w.sent ++ session_packets sock (w.users caller) u w) target_eq

  granted :
      w.inbox sock ≡ chunk (command_bytes open_session_with_user ++ asked) ∷ q
      → Loop.round sock w ≡ some (tt, after)
  unfolding handle ◌>>=◌
  granted e =
      round-handle sock open_session_with_user (leftover asked q) w can.connected (
        ap read_command e ∙ read_command-command_bytes open_session_with_user asked q (omega arith))
      ∙ opening

-- A client to which all that the server has sent to its socket comes in one portion.
abbrev pub hearing : Socket → List Packet → Client → Client
hearing s packets c = record c { inbox = chunk (delivered s packets) ∷ [] }

-- When what a client writes to open a session arrives at the dispatcher and the request can be
-- granted, one round of the dispatcher answers it without a fault, and what it sends makes both
-- clients, in one round each, hold the other as the partner of their session: each under its name
-- and at the address that the server sees.
pub round-open_session :
    (w : World) (sock : Socket) (caller target : Pointer) (user_name peer : Str) (c a b : Client)
    (rest : List ℕ) (q : List Arrival)
    → CanOpen w sock caller target user_name peer
    → w.inbox sock ≡ chunk (news c (open_session user_name peer c) ++ rest) ∷ q
    → (u : World) × (packets : List Packet) × (Loop.round sock w ≡ some (tt, u))
      × (u.sent ≡ w.sent ++ packets)
      × (round (hearing sock packets a)
          ≡ some
              (in_session_at peer (w.address (w.users target).socket) [] (hearing sock packets a)))
      × (round (hearing (w.users target).socket packets b)
          ≡ some (
              in_session_at
                (w.users caller).name
                (w.address sock)
                []
                (hearing (w.users target).socket packets b)))
unfolding asked
round-open_session w sock caller target user_name peer c a b rest q can e =
    let packets = session_packets sock (w.users caller) (w.users target) w in
    let named = (target_named w sock caller target user_name peer rest q can).0 in
    (
      after w sock caller target user_name peer rest q can,
      packets,
      granted w sock caller target user_name peer rest q can
          (e ∙ ap (λ bs. chunk bs ∷ q) (news-open_session user_name peer c rest)),
      after-sent w sock caller target user_name peer rest q can,
      round-session_packets_caller w sock (w.users caller) (w.users target) (hearing sock packets a)
            [] [] can.other_sockets_back (subst IsReadable (sym named) can.target_readable)
            can.target_printable
            (ap (λ bs. chunk bs ∷ []) (sym (append-nil (delivered sock packets))))
          ∙ ap
              (λ (n : Str).
                some
                  (in_session_at n (w.address (w.users target).socket) [] (hearing sock packets a)))
              named,
      round-session_packets_target w sock (w.users caller) (w.users target)
          (hearing (w.users target).socket packets b) [] [] can.other_sockets can.caller_readable
          can.caller_printable
          (ap (λ bs. chunk bs ∷ []) (sym (append-nil (delivered (w.users target).socket packets)))),
    )
