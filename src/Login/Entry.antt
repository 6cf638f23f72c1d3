-- ===== src/Login/Entry.antt =====
-- The branches of LoginAndSignUp::run for LOGIN and SIGNUP.
use networking_programming_p.Base.{
  ℕ, ◌≡◌, refl, ◌∙◌, ap, Str, List, ◌++◌, append_assoc, Option, none, some, true, false, arith,
  if◌then◌else◌, Bool-cases, inl, inr, str_eq_refl,
}
use networking_programming_p.Wire.{Arrival, read_msg}
use networking_programming_p.Address.{dest_ip_and_port}
use networking_programming_p.OrderedMap.{find}
use networking_programming_p.OrderedMap.Laws.{find-insert}
use networking_programming_p.Protocol.{confirm_user, login_denied}
use networking_programming_p.Dispatcher.State.{Socket, Packet, User, World}
use networking_programming_p.Dispatcher.Monad.{
  M, ◌>>=◌, pure, write_command, command_packets, msg_packets,
}
use networking_programming_p.Dispatcher.Sessions.{address_of}
use networking_programming_p.Dispatcher.Steps.{
  send, consumed, read_two, added, add_user_lem, update_self, contains_of_find,
}
use networking_programming_p.Login.{
  Server, login, drop_peer, credentials, confirm, on_world, then_server, admit, serve_login,
}

-- The request of a peer: a name and a password, then `rest`.
pub record Submits (s : Server) (peer : Socket) (username password : Str) (rest : List Arrival)
    : Type 0 where
  pub middle : List Arrival
  pub named : read_msg (s.dispatcher.inbox peer) ≡ some (username, middle)
  pub secret : read_msg middle ≡ some (password, rest)

-- The server once a peer's request was read.
abbrev pub heard : Socket → List Arrival → Server → Server
heard peer rest s = record s { dispatcher = consumed peer rest s.dispatcher }

-- What a peer that is let in is sent.
abbrev pub confirm_packets : Socket → Str → World → List Packet
confirm_packets peer username w =
    command_packets peer confirm_user
    ++ (msg_packets peer username ++ msg_packets peer (dest_ip_and_port (w.address peer)))

-- The server once a peer was let in.
unfoldable pub admitted : Socket → Str → Server → Server
admitted peer username s = record s {
  dispatcher = added peer username (send (confirm_packets peer username s.dispatcher) s.dispatcher);
  peers = drop_peer peer s.peers;
}

pub confirm_lem :
    (peer : Socket) (username : Str) (w : World)
    → confirm peer username w
      ≡ some (tt, added peer username (send (confirm_packets peer username w) w))
unfolding confirm address_of ◌>>=◌
confirm_lem peer username w =
    add_user_lem peer username _
    ∙ ap (λ (p : List Packet). some (tt, added peer username (record w { sent = p })))
        (simp append_assoc)

pub credentials_lem :
    (s : Server) (peer : Socket) (username password : Str) (rest : List Arrival)
    → Submits s peer username password rest
    → on_world (credentials peer) s ≡ some ((username, password), heard peer rest s)
unfolding on_world credentials pure
credentials_lem s peer username password rest r =
    ap
      (λ (o : Option ((Str × Str) × World)). elim o [
        | none ↦ none
        | some (a, w) ↦ some (a, record s { dispatcher = w })
      ])
      (read_two peer s.dispatcher username password r.middle rest couple r.named r.secret)
  where
    couple : Str → Str → M (Str × Str)
    couple a b = pure (a, b)

pub on_world-write_command :
    (peer : Socket) (n : ℕ) (s : Server)
    → then_server (on_world (write_command peer n) s)
      ≡ some (record s { dispatcher = send (command_packets peer n) s.dispatcher })
unfolding on_world write_command
on_world-write_command peer n s = refl

admit-confirm :
    (peer : Socket) (username : Str) (s : Server)
    → admit peer (confirm peer username) s ≡ some (admitted peer username s)
unfolding admit on_world admitted
admit-confirm peer username s = rw (confirm_lem peer username s.dispatcher, on_world) refl

-- LOGIN, on both branches: a peer whose name and password login accepts is confirmed, enters the
-- dispatcher and leaves `peers`; any other is sent LOGIN_DENIED and nothing else changes.
pub serve_login_lem :
    (s : Server) (peer : Socket) (username password : Str) (rest : List Arrival)
    → Submits s peer username password rest
    → serve_login peer s
      ≡ some (
          if login username password (heard peer rest s)
          then admitted peer username (heard peer rest s)
          else record s {
            dispatcher = send (command_packets peer login_denied) (consumed peer rest s.dispatcher);
          })
unfolding serve_login
serve_login_lem s peer username password rest r =
    rw (credentials_lem s peer username password rest r, serve_login)
      (elim (Bool-cases (login username password (heard peer rest s))) [
        | inl e ↦ rw e (admit-confirm peer username (heard peer rest s))
        | inr e ↦ rw e (on_world-write_command peer login_denied (heard peer rest s))
      ])

pub serve_login_accepted :
    (s : Server) (peer : Socket) (username password : Str) (rest : List Arrival)
    → Submits s peer username password rest
    → login username password (heard peer rest s) ≡ true
    → serve_login peer s ≡ some (admitted peer username (heard peer rest s))
serve_login_accepted s peer username password rest r h =
    serve_login_lem s peer username password rest r ∙ rw h

pub find-admitted :
    (peer : Socket) (username : Str) (s : Server)
    → find username (admitted peer username s).dispatcher.users_map ≡ some s.dispatcher.next_user
unfolding admitted added
find-admitted peer username s = rw find-insert (rw str_eq_refl)

login-admitted :
    (peer : Socket) (username other : Str) (s : Server)
    → login username other (admitted peer username s) ≡ false
unfolding login
login-admitted peer username other s = ground (
  arith,
  contains_of_find username (admitted peer username s).dispatcher (find-admitted peer username s),
)

-- After a login that is accepted, users_map has the name with a new user of that socket, `peers`
-- is without its first entry for the socket, the file is as it was, and login refuses the name
-- with any password.
pub serve_login_once :
    (s : Server) (peer : Socket) (username password other : Str) (rest : List Arrival)
    → Submits s peer username password rest
    → login username password (heard peer rest s) ≡ true
    → (t : Server) × (serve_login peer s ≡ some t)
      × (find username t.dispatcher.users_map ≡ some s.dispatcher.next_user)
      × ((t.dispatcher.users s.dispatcher.next_user).socket ≡ peer)
      × (t.peers ≡ drop_peer peer s.peers)
      × (t.file ≡ s.file)
      × (login username other t ≡ false)
unfolding admitted added
serve_login_once s peer username password other rest r h = (
  admitted peer username (heard peer rest s),
  serve_login_accepted s peer username password rest r h,
  find-admitted peer username (heard peer rest s),
  ap (λ (u : User). u.socket) (update_self s.dispatcher.users s.dispatcher.next_user _),
  refl,
  refl,
  login-admitted peer username other (heard peer rest s),
)
