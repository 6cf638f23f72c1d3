-- ===== src/Client/Sessions.antt =====
-- A session between two clients: what the server's dispatcher sends when it opens one, and what
-- the two clients make of it (ServerSide/src/Dispatcher.cpp, Dispatcher::open_session;
-- ClientSide/src/Client.cpp, Client::run); and a connection that the server drops.
use networking_programming_p.Base.{
  ℕ, ◌^◌, zero, suc, ◌<◌, Str, List, [], ◌∷◌, ◌++◌, append_assoc, append-nil, Option, Bool, none,
  some, true, false, ◌≡◌, refl, ◌∙◌, ap, ◌==◌, if◌then◌else◌, arith,
}
use networking_programming_p.Wire.{
  Arrival, chunk, leftover, read_command, command_bytes, msg_bytes, recv, portion, ntohl,
}
use networking_programming_p.Address.{SockAddr, dest_ip_and_port}
use networking_programming_p.Address.RoundTrip.{parse_address-dest_ip_and_port}
use networking_programming_p.Protocol.{incomimg_session, target_ip_and_port}
use networking_programming_p.Dispatcher.State.{Socket, User, World}
use networking_programming_p.Dispatcher.Sessions.Open.{session_packets}
use networking_programming_p.Client.Delivered.{
  delivered, IsReadable, IsPrintable, with_pair_lem, moved, round_heard, delivered-command_hit,
  delivered-msg_hit, delivered-msg_last, delivered-command_miss, delivered-msg_miss,
  delivered-msg_missed,
}
use networking_programming_p.Client.{Client}
use networking_programming_p.Client.Handlers.{put_partner, got_session_partner}
use networking_programming_p.Client.Run.{switch, round, run}

-- A client in a session with a peer of that name and address.
abbrev pub in_session_at : Str → SockAddr → List Arrival → Client → Client
in_session_at name a arrivals c = record c {
  inbox = arrivals;
  session_partner = record { name = name; ip = a.ip; port = a.port };
  is_in_session = true;
}

got_session_partner_lem :
    (c : Client) (name : Str) (a : SockAddr) (rest : List ℕ) (q : List Arrival)
    → IsReadable name
    → IsPrintable a
    → c.inbox ≡ leftover (msg_bytes name ++ (msg_bytes (dest_ip_and_port a) ++ rest)) q
    → got_session_partner c ≡ some (in_session_at name a (leftover rest q) c)
unfolding got_session_partner put_partner
got_session_partner_lem c name a rest q n p e =
    with_pair_lem put_partner c name (dest_ip_and_port a) rest q n p.2 e
    ∙ ap (λ (b : SockAddr). some (in_session_at name b (leftover rest q) c))
        (parse_address-dest_ip_and_port a p.0 p.1)

-- The bytes of the three messages about a session.
abbrev session_bytes : ℕ → Str → SockAddr → List ℕ → List ℕ
session_bytes command name a rest =
    command_bytes command ++ (msg_bytes name ++ (msg_bytes (dest_ip_and_port a) ++ rest))

round_session :
    (command : ℕ) (c : Client) (name : Str) (a : SockAddr) (rest : List ℕ) (q : List Arrival)
    → (command == 0) ≡ false
    → command < 2 ^ 32
    → ((c' : Client) → switch command c' ≡ got_session_partner c')
    → IsReadable name
    → IsPrintable a
    → c.inbox ≡ chunk (session_bytes command name a rest) ∷ q
    → round c ≡ some (in_session_at name a (leftover rest q) c)
round_session command c name a rest q z b s n p e =
    let after = msg_bytes name ++ (msg_bytes (dest_ip_and_port a) ++ rest) in
    round_heard command after q c z b e
    ∙ s (moved (leftover after q) c)
    ∙ got_session_partner_lem (moved (leftover after q) c) name a rest q n p refl

-- The bytes for the user who is called.
delivered-target :
    (sock : Socket) (me peer : User) (w : World) (rest : List ℕ)
    → (sock == peer.socket) ≡ false
    → delivered peer.socket (session_packets sock me peer w) ++ rest
      ≡ session_bytes incomimg_session me.name (w.address sock) rest
delivered-target sock me peer w rest h = rw (
  delivered-command_miss peer.socket sock _ _ h,
  delivered-msg_miss peer.socket sock _ _ h,
  delivered-msg_miss peer.socket sock _ _ h,
  delivered-command_hit,
  delivered-msg_hit,
  delivered-msg_last,
  append_assoc,
  append_assoc,
)

delivered-caller :
    (sock : Socket) (me peer : User) (w : World) (rest : List ℕ)
    → (peer.socket == sock) ≡ false
    → delivered sock (session_packets sock me peer w) ++ rest
      ≡ session_bytes target_ip_and_port peer.name (w.address peer.socket) rest
delivered-caller sock me peer w rest h = rw (
  delivered-command_hit,
  delivered-msg_hit,
  delivered-msg_hit,
  delivered-command_miss sock peer.socket _ _ h,
  delivered-msg_miss sock peer.socket _ _ h,
  delivered-msg_missed sock peer.socket _ h,
  append-nil,
  append_assoc,
  append_assoc,
)

round_closed : (c : Client) → c.inbox ≡ [] → round c ≡ some c
unfolding round read_command recv portion ntohl
round_closed c e = rw e

run_step :
    (f : ℕ) (c c' : Client)
    → c.connection_status ≡ true
    → round c ≡ some c'
    → run (suc f) c ≡ run f c'
unfolding run
run_step f c c' s e =
    ap (λ (b : Bool). if b then (elim (round c) [ none ↦ none | some t ↦ run f t ]) else some c) s
    ∙ ap (λ (o : Option Client). (elim o [ none ↦ none | some t ↦ run f t ])) e

-- At the end of the stream readCommand gives 0 for ever: a client whose server has gone without a
-- word goes through any number of rounds, stays connected and is left as it was.
pub run-closed : (f : ℕ) (c : Client) → c.inbox ≡ [] → c.connection_status ≡ true → run f c ≡ some c
unfolding run
run-closed zero c e s = refl
run-closed (suc f) c e s = run_step f c c s (round_closed c e) ∙ run-closed f c e s

-- When a session is opened between two different sockets and what the server sends for it
-- arrives in one portion, the client that is called has, after one round, the caller as the
-- partner of its session, at the address that the server sees: if the caller's name is readable
-- and its address printable.
pub round-session_packets_target :
    (w : World) (sock : Socket) (me peer : User) (c : Client) (rest : List ℕ) (q : List Arrival)
    → (sock == peer.socket) ≡ false
    → IsReadable me.name
    → IsPrintable (w.address sock)
    → c.inbox ≡ chunk (delivered peer.socket (session_packets sock me peer w) ++ rest) ∷ q
    → round c ≡ some (in_session_at me.name (w.address sock) (leftover rest q) c)
unfolding switch
round-session_packets_target w sock me peer c rest q h n p e =
    round_session incomimg_session c me.name (w.address sock) rest q refl (omega arith) (λ c'. refl)
      n p (e ∙ ap (λ bs. chunk bs ∷ q) (delivered-target sock me peer w rest h))

-- When a session is opened between two different sockets and what the server sends for it
-- arrives in one portion, the client that asked for it has, after one round, the user it asked for
-- as the partner of its session, at the address that the server sees: if that user's name is
-- readable and its address printable.
pub round-session_packets_caller :
    (w : World) (sock : Socket) (me peer : User) (c : Client) (rest : List ℕ) (q : List Arrival)
    → (peer.socket == sock) ≡ false
    → IsReadable peer.name
    → IsPrintable (w.address peer.socket)
    → c.inbox ≡ chunk (delivered sock (session_packets sock me peer w) ++ rest) ∷ q
    → round c ≡ some (in_session_at peer.name (w.address peer.socket) (leftover rest q) c)
unfolding switch
round-session_packets_caller w sock me peer c rest q h n p e =
    round_session target_ip_and_port c peer.name (w.address peer.socket) rest q refl (omega arith)
      (λ c'. refl) n p (e ∙ ap (λ bs. chunk bs ∷ q) (delivered-caller sock me peer w rest h))
