-- ===== src/Client/Console/Offline.antt =====
-- The console of a client that gets no socket (ClientSide/src/Client.cpp, main).
use networking_programming_p.Base.{
  ℕ, zero, suc, ◌≡◌, refl, sym, subst, ap, Str, List, [], Option, none, some, Bool, true, false,
  Bool-cases, inl, inr, codes, str_eq, if◌then◌else◌,
}
use networking_programming_p.Client.{Client}
use networking_programming_p.Client.Requests.{connect_to_server, disconnect_from_server, close}
use networking_programming_p.Console.{next_word}
use networking_programming_p.Client.Console.{
  Cli, Dial, Outcome, fault, working, ended, after, loop, serve, connect, log_in, register,
  if_connected, list_room, open_peer, open_room, send_line, say, with_client, without_space,
  read_line, read_ip, read_username, read_password, read_room_name, read_peer_usr,
}

-- Without a connection, with no socket to come, and nothing sent since the client was `c`.
pub record IsOffline (c client : Client) (dials : List Dial) : Type 0 where
  pub no_socket : dials ≡ []
  pub unconnected : client.is_connected_to_server ≡ false
  pub sent : client.sent ≡ c.sent
  pub sent_datagrams : client.sent_datagrams ≡ c.sent_datagrams

unfoldable IsQuiet : Client → Option Cli → Type 0
IsQuiet c none = ⊥
IsQuiet c (some s) = IsOffline c s.client s.dials

IsQuiet-branch :
    (c : Client) (b : Bool) (x y : Option Cli)
    → IsQuiet c x
    → IsQuiet c y
    → IsQuiet c (if b then x else y)
IsQuiet-branch c true x y p q = p
IsQuiet-branch c false x y p q = q

-- A branch that is not taken without a connection.
not_taken :
    (c : Client) (b : Bool) (s t : Cli)
    → b ≡ false
    → IsQuiet c (some t)
    → IsQuiet c (some (if b then s else t))
not_taken c b s t e q = subst (λ a. IsQuiet c (some (if a then s else t))) (sym e) q

module _ (c : Client) (s : Cli) (o : IsOffline c s.client s.dials) where
  unchanged-IsQuiet : IsQuiet c (some s)
  unfolding IsQuiet
  unchanged-IsQuiet = o

  connect-IsQuiet : IsQuiet c (some (connect (read_ip s)))
  unfolding IsQuiet connect connect_to_server
  connect-IsQuiet =
      subst (λ (t : Cli). IsOffline c t.client t.dials) (sym refusal)
        (record {
          no_socket = refl;
          unconnected = o.unconnected;
          sent = o.sent;
          sent_datagrams = o.sent_datagrams;
        })
    where
      refusal : connect (read_ip s) ≡ connect (record (read_ip s) { dials = [] })
      refusal = ap (λ (ds : List Dial). connect (record (read_ip s) { dials = ds })) o.no_socket

  log_in-IsQuiet : IsQuiet c (some (log_in (read_password (read_username s))))
  unfolding log_in IsQuiet
  log_in-IsQuiet = not_taken c _ _ (read_password (read_username s)) o.unconnected o

  register-IsQuiet : IsQuiet c (some (register s))
  unfolding register IsQuiet
  register-IsQuiet = not_taken c _ _ s o.unconnected o

  if_connected-IsQuiet : (f : Client → Client) → IsQuiet c (some (if_connected f s))
  unfolding if_connected IsQuiet
  if_connected-IsQuiet f = not_taken c _ _ s o.unconnected o

  list_room-IsQuiet : IsQuiet c (some (list_room s))
  unfolding list_room IsQuiet
  list_room-IsQuiet = not_taken c _ _ s o.unconnected o

  open_peer-IsQuiet : IsQuiet c (some (open_peer (read_peer_usr s)))
  unfolding open_peer IsQuiet
  open_peer-IsQuiet = not_taken c _ _ (read_peer_usr s) o.unconnected o

  open_room-IsQuiet : IsQuiet c (some (open_room (read_room_name s)))
  unfolding open_room IsQuiet
  open_room-IsQuiet = not_taken c _ _ (read_room_name s) o.unconnected o

  send_line-IsQuiet : IsQuiet c (send_line s)
  unfolding send_line IsQuiet
  send_line-IsQuiet =
      subst
        (λ (b : Bool). IsQuiet c (
          if b
          then (if s.client.is_in_session then say (without_space (read_line s)) else some s)
          else some s))
        (sym o.unconnected) o

  close-IsQuiet : IsQuiet c (some (with_client s (close s.client)))
  unfolding close IsQuiet
  close-IsQuiet =
      subst
        (λ (b : Bool).
          IsQuiet c
            (some (with_client s (if b then disconnect_from_server s.client else s.client))))
        (sym o.unconnected) o

  serve-IsQuiet : (command : Str) → IsQuiet c (serve command s)
  unfolding serve
  serve-IsQuiet command =
      search
        (
          IsQuiet-branch, unchanged-IsQuiet, connect-IsQuiet, log_in-IsQuiet, register-IsQuiet,
          if_connected-IsQuiet, list_room-IsQuiet, open_peer-IsQuiet, open_room-IsQuiet,
          send_line-IsQuiet, close-IsQuiet,
        )
        depth 20

-- The loop has had no fault, and nothing was sent since the client was `c`.
abbrev pub IsSilent : Client → Outcome → Type 0
IsSilent c fault = ⊥
IsSilent c (working s) = (s.client.sent ≡ c.sent) × (s.client.sent_datagrams ≡ c.sent_datagrams)
IsSilent c (ended s) = (s.client.sent ≡ c.sent) × (s.client.sent_datagrams ≡ c.sent_datagrams)

after-IsSilent :
    (c : Client) (command : Str) (f : ℕ) (o : Option Cli)
    → IsQuiet c o
    → ((t : Cli) → IsOffline c t.client t.dials → IsSilent c (loop f t))
    → IsSilent c (after command (loop f) o)
unfolding IsQuiet
after-IsSilent c command f none q k = q
after-IsSilent c command f (some t) q k = elim (Bool-cases (str_eq command (codes "x"))) [
  | inl e ↦ rw e (q.sent, q.sent_datagrams)
  | inr e ↦ rw e (k t q)
]

loop-offline : (c : Client) (f : ℕ) (s : Cli) → IsOffline c s.client s.dials → IsSilent c (loop f s)
unfolding loop
loop-offline c zero s o = (o.sent, o.sent_datagrams)
loop-offline c (suc f) s o =
    let (command, rest) = next_word [] s.input in
    after-IsSilent c command f _ (serve-IsQuiet c (record s { input = rest }) o command)
      (loop-offline c f)

-- Whatever is typed into the console of a client that is not connected and that gets no
-- descriptor for a socket, and however long it goes on, it has no fault and sends nothing, neither to the server
-- nor to another client.
pub loop-IsSilent :
    (f : ℕ) (s : Cli)
    → s.dials ≡ []
    → s.client.is_connected_to_server ≡ false
    → IsSilent s.client (loop f s)
loop-IsSilent f s d e =
    loop-offline s.client f s
      (record { no_socket = d; unconnected = e; sent = refl; sent_datagrams = refl })
