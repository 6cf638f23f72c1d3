-- ===== src/Conversation/Entry.antt =====
-- A login from the console of a client to its answer: Client::login (ClientSide/src/Client.cpp),
-- a round of LoginAndSignUp::run (ServerSide/src/LoginAndSignUp.cpp), and a round of Client::run.
use networking_programming_p.Base.{
  ℕ, ◌≡◌, refl, ap, ◌∙◌, Str, List, [], ◌∷◌, ◌++◌, append_assoc, append-nil, Option, none, some,
  true, false, arith, drop-append, ◌==◌,
}
use networking_programming_p.Wire.{
  Arrival, chunk, leftover, read_command, read_msg, command_bytes, msg_bytes,
}
use networking_programming_p.Wire.RoundTrip.{read_command-command_bytes}
use networking_programming_p.Address.{SockAddr, dest_ip_and_port, parse_address}
use networking_programming_p.Address.RoundTrip.{parse_address-dest_ip_and_port}
use networking_programming_p.OrderedMap.{find}
use networking_programming_p.Protocol.{login as login_command, confirm_user}
use networking_programming_p.Dispatcher.State.{Socket, User, Packet, World}
use networking_programming_p.Dispatcher.Monad.{next_command}
use networking_programming_p.Dispatcher.Steps.{added, update_self}
use networking_programming_p.Dispatcher.Taken.{next_command_lem}
use networking_programming_p.Login.{Server, login, on_world, serve, serve_command}
use networking_programming_p.Login.Entry.{
  Submits, heard, find-admitted, confirm_packets, admitted, serve_login_accepted,
}
use networking_programming_p.Client.{Client}
use networking_programming_p.Client.Requests.{send_login}
use networking_programming_p.Client.Handlers.{logged_in}
use networking_programming_p.Client.Run.{switch, round}
use networking_programming_p.Client.Delivered.{
  delivered, IsReadable, IsPrintable, read_msg-leftover, with_pair_lem, moved, round_heard,
  delivered-command_hit, delivered-msg_hit, delivered-msg_last,
}
use networking_programming_p.Conversation.{news, hearing}

news-send_login :
    (name pass : Str) (c : Client) (rest : List ℕ)
    → news c (send_login name pass c) ++ rest
      ≡ command_bytes login_command ++ (msg_bytes name ++ (msg_bytes pass ++ rest))
unfolding send_login msg_bytes
news-send_login name pass c rest = simp (append_assoc, drop-append, append-nil)

on_world-next_command :
    (sock : Socket) (command : ℕ) (rest : List Arrival) (s : Server)
    → read_command (s.dispatcher.inbox sock) ≡ (command, rest)
    → on_world (next_command sock) s ≡ some (command, heard sock rest s)
unfolding on_world
on_world-next_command sock command rest s e =
    ap
      (λ (o : Option (ℕ × World)). elim o [
        | none ↦ none
        | some (a, w) ↦ some (a, record s { dispatcher = w })
      ])
      (next_command_lem sock command rest s.dispatcher e)

pub serve-serve_command :
    (sock : Socket) (command : ℕ) (rest : List Arrival) (s : Server)
    → (sock == 0) ≡ false
    → read_command (s.dispatcher.inbox sock) ≡ (command, rest)
    → serve sock s ≡ serve_command command sock (heard sock rest s)
unfolding serve
serve-serve_command sock command rest s n e =
    rw (n, on_world-next_command sock command rest s e, serve) refl

-- A client that is logged in, bound to the port at which the server sees it.
abbrev pub logged_in_as : Str → SockAddr → Client → Client
logged_in_as name a c = record c { client_name = name; is_logged_in = true; udp_sock = some a.port }

pub round-confirm_packets :
    (sock : Socket) (name : Str) (w : World) (c : Client)
    → IsReadable name
    → IsPrintable (w.address sock)
    → round (hearing sock (confirm_packets sock name w) c)
      ≡ some (logged_in_as name (w.address sock) (record c { inbox = [] }))
unfolding switch logged_in
round-confirm_packets sock name w c n p =
    let a = w.address sock in
    let after = msg_bytes name ++ (msg_bytes (dest_ip_and_port a) ++ []) in
    let flat : delivered sock (confirm_packets sock name w) ≡ command_bytes confirm_user ++ after =
      rw (delivered-command_hit, delivered-msg_hit, delivered-msg_last, append-nil) refl in
    round_heard confirm_user after [] (hearing sock (confirm_packets sock name w) c) refl
      (omega arith) (ap (λ bs. chunk bs ∷ []) flat)
    ∙ with_pair_lem put_login
        (moved (leftover after []) (hearing sock (confirm_packets sock name w) c)) name
        (dest_ip_and_port a) [] [] n p.2 refl
    ∙ ap (λ (b : SockAddr). some (logged_in_as name b (record c { inbox = [] })))
        (parse_address-dest_ip_and_port a p.0 p.1)
  where
    put_login : Str → Str → Client → Option Client
    put_login client_name ip_and_port c' =
        some (logged_in_as client_name (parse_address ip_and_port) c')

-- A login that the server can answer: both texts can be read, and so can the peer's address.
pub record CanLogIn (s : Server) (sock : Socket) (name pass : Str) : Type 0 where
  pub connected : (sock == 0) ≡ false
  pub accepted : login name pass s ≡ true
  pub name_readable : IsReadable name
  pub pass_readable : IsReadable pass
  pub printable : IsPrintable (s.dispatcher.address sock)

module _ (s : Server) (sock : Socket) (name pass : Str) (rest : List ℕ) (q : List Arrival)
    (can : CanLogIn s sock name pass) where
  asked : List ℕ
  asked = msg_bytes name ++ (msg_bytes pass ++ rest)

  -- The server once the command was read.
  abbrev t : Server
  t = heard sock (leftover asked q) s

  submits : Submits t sock name pass (leftover rest q)
  unfolding asked
  submits = record {
    middle = leftover (msg_bytes pass ++ rest) q;
    named =
        ap read_msg (update_self s.dispatcher.inbox sock (leftover asked q))
        ∙ read_msg-leftover name (msg_bytes pass ++ rest) q can.name_readable;
    secret = read_msg-leftover pass rest q can.pass_readable;
  }

  let_in : Server
  let_in = admitted sock name (heard sock (leftover rest q) t)

  still_accepted : login name pass (heard sock (leftover rest q) t) ≡ true
  unfolding login
  still_accepted = can.accepted

  answered :
      s.dispatcher.inbox sock ≡ chunk (command_bytes login_command ++ asked) ∷ q
      → serve sock s ≡ some let_in
  unfolding serve_command let_in
  answered e =
      serve-serve_command sock login_command (leftover asked q) s can.connected
        (ap read_command e ∙ read_command-command_bytes login_command asked q (omega arith))
      ∙ serve_login_accepted t sock name pass (leftover rest q) submits still_accepted

  let_in-sent : let_in.dispatcher.sent ≡ s.dispatcher.sent ++ confirm_packets sock name s.dispatcher
  unfolding let_in admitted added
  let_in-sent = refl

-- When what a client writes to log in arrives at the server, and login accepts the name and the
-- password, one round of the login thread answers it without a fault: the name stands in
-- users_map for a new user with the client's socket, and what is sent makes the client, in one
-- round, take that name, count as logged in, and open its UDP socket on the port at which the
-- server sees it: if the texts and the address can be read.
pub serve-send_login :
    (s : Server) (sock : Socket) (name pass : Str) (c a : Client) (rest : List ℕ) (q : List Arrival)
    → CanLogIn s sock name pass
    → s.dispatcher.inbox sock ≡ chunk (news c (send_login name pass c) ++ rest) ∷ q
    → (t : Server) × (packets : List Packet) × (serve sock s ≡ some t)
      × (t.dispatcher.sent ≡ s.dispatcher.sent ++ packets)
      × (find name t.dispatcher.users_map ≡ some s.dispatcher.next_user)
      × ((t.dispatcher.users s.dispatcher.next_user).socket ≡ sock)
      × (round (hearing sock packets a)
          ≡ some (logged_in_as name (s.dispatcher.address sock) (record a { inbox = [] })))
unfolding asked let_in admitted added
serve-send_login s sock name pass c a rest q can e = (
  let_in s sock name pass rest q can,
  confirm_packets sock name s.dispatcher,
  answered s sock name pass rest q can
      (e ∙ ap (λ bs. chunk bs ∷ q) (news-send_login name pass c rest)),
  let_in-sent s sock name pass rest q can,
  find-admitted sock name (
      heard sock (leftover rest q) (heard sock (leftover (asked s sock name pass rest q can) q) s)),
  ap (λ (u : User). u.socket) (update_self s.dispatcher.users s.dispatcher.next_user _),
  round-confirm_packets sock name s.dispatcher a can.name_readable can.printable,
)
