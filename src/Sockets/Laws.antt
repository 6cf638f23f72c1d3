-- ===== src/Sockets/Laws.antt =====
-- The descriptors that the sockets hold (msockets/src/TCPSocket.cpp, msockets/src/UDPSocket.cpp),
-- and a connection that is refused (Client::connectToServer in ClientSide/src/Client.cpp).
use networking_programming_p.Base.{
  ℕ, ◌≡◌, refl, ap, ◌∙◌, Str, List, [], ◌∷◌, Option, none, some, Bool, true, false, arith, ◌==◌,
  ==_refl, if◌then◌else◌, Bool-cases, inl, inr,
}
use networking_programming_p.Wire.{Arrival}
use networking_programming_p.Client.{Client}
use networking_programming_p.Client.Requests.{connect_to_server}
use networking_programming_p.Sockets.{
  Fd, InetAddr, Kind, sock_stream, sock_dgram, Kernel, TcpSocket, at, any, address_at,
  server_socket, client_socket, cclose, udp_socket, udp_cclose, dial,
}

-- A descriptor is among the open ones.
abbrev pub is_open : ℕ → List ℕ → Bool
is_open fd [] = false
is_open fd (g ∷ gs) = if g == fd then true else is_open fd gs

-- The open descriptors without one.
abbrev pub closing : ℕ → List ℕ → List ℕ
closing fd [] = []
closing fd (g ∷ gs) = let rest = closing fd gs in if g == fd then rest else g ∷ rest

abbrev pub closing_fd : Fd → List ℕ → List ℕ
closing_fd none gs = gs
closing_fd (some fd) gs = closing fd gs

abbrev pub opening : Fd → List ℕ → List ℕ
opening none gs = gs
opening (some fd) gs = fd ∷ gs

abbrev pub IsFresh : Fd → List ℕ → Type 0
IsFresh none gs = Unit
IsFresh (some fd) gs = is_open fd gs ≡ false

abbrev pub accepted_fd : Option (ℕ × InetAddr) → Fd
accepted_fd none = none
accepted_fd (some (fd, peer)) = some fd

-- What the system calls do with the open descriptors: socket and accept give one that was not open,
-- close takes its own out, and the others change none.
pub record HasDescriptors {K : Type 0} (os : Kernel K) (open_fds : K → List ℕ) : Type 0 where
  pub on_socket :
      (kind : Kind) (k : K)
      → (open_fds (os.socket kind k).1 ≡ opening (os.socket kind k).0 (open_fds k))
        × IsFresh (os.socket kind k).0 (open_fds k)
  pub on_accept :
      (fd : Fd) (k : K)
      → (open_fds (os.accept fd k).1 ≡ opening (accepted_fd (os.accept fd k).0) (open_fds k))
        × IsFresh (accepted_fd (os.accept fd k).0) (open_fds k)
  pub on_bind : (fd : Fd) (a : InetAddr) (k : K) → open_fds (os.bind fd a k).1 ≡ open_fds k
  pub on_connect : (fd : Fd) (a : InetAddr) (k : K) → open_fds (os.connect fd a k).1 ≡ open_fds k
  pub on_listen : (fd : Fd) (n : ℕ) (k : K) → open_fds (os.listen fd n k).1 ≡ open_fds k
  pub on_shutdown : (fd : Fd) (k : K) → open_fds (os.shutdown fd k) ≡ open_fds k
  pub on_close : (fd : Fd) (k : K) → open_fds (os.close fd k) ≡ closing_fd fd (open_fds k)

is_open-closing : (fd : ℕ) (gs : List ℕ) → is_open fd (closing fd gs) ≡ false
is_open-closing fd [] = refl
is_open-closing fd (g ∷ gs) = ground (arith, is_open-closing fd gs)

closing-absent : (fd : ℕ) (gs : List ℕ) → is_open fd gs ≡ false → closing fd gs ≡ gs
closing-absent fd [] h = refl
closing-absent fd (g ∷ gs) h = ground (arith, closing-absent fd gs)

closing-opening : (fd : Fd) (gs : List ℕ) → IsFresh fd gs → closing_fd fd (opening fd gs) ≡ gs
closing-opening none gs h = refl
closing-opening (some fd) gs h = rw (==_refl fd) (closing-absent fd gs h)

-- To close twice what was fresh is to close it once, as long as nothing else was opened.
closing-twice :
    (fd : Fd) (gs : List ℕ) → IsFresh fd gs → closing_fd fd (closing_fd fd (opening fd gs)) ≡ gs
closing-twice none gs h = refl
closing-twice (some fd) gs h =
    ap (closing fd) (closing-opening (some fd) gs h) ∙ closing-absent fd gs h

module _ {K : Type 0} (os : Kernel K) (open_fds : K → List ℕ)
    (laws : HasDescriptors os open_fds) where
  open-cclose :
      (s : TcpSocket) (k : K) → open_fds (cclose os s k) ≡ closing_fd s.socket_fd (open_fds k)
  unfolding cclose
  open-cclose s k =
      laws.on_close s.socket_fd (os.shutdown s.socket_fd k)
      ∙ ap (closing_fd s.socket_fd) (laws.on_shutdown s.socket_fd k)

  -- A listening socket that is made and closed again leaves the open descriptors as they were,
  -- whether or not bind fails.
  pub cclose-server_socket :
      (garbage : InetAddr) (port : ℕ) (k : K)
      → open_fds (cclose os (server_socket os garbage port k).0 (server_socket os garbage port k).1)
        ≡ open_fds k
  unfolding server_socket
  cclose-server_socket garbage port k =
      let opened = os.socket sock_stream k in
      open-cclose _ _
      ∙ ap (closing_fd opened.0)
          (laws.on_bind opened.0 (address_at any port) opened.1 ∙ (laws.on_socket sock_stream k).0)
      ∙ closing-opening opened.0 (open_fds k) (laws.on_socket sock_stream k).1

  -- So does one that is to be connected, whether or not connect fails: where it fails, the
  -- descriptor is closed twice.
  pub cclose-client_socket :
      (garbage : InetAddr) (ip : Str) (port : ℕ) (k : K)
      → open_fds
          (cclose os (client_socket os garbage ip port k).0 (client_socket os garbage ip port k).1)
        ≡ open_fds k
  unfolding client_socket
  cclose-client_socket garbage ip port k =
      let opened = os.socket sock_stream k in
      let tried = os.connect opened.0 (address_at (at ip) port) opened.1 in
      let kept =
        laws.on_connect opened.0 (address_at (at ip) port) opened.1
        ∙ (laws.on_socket sock_stream k).0 in
      open-cclose _ _ ∙ elim (Bool-cases tried.0) [
        | inl e ↦ rw e (
            ap (closing_fd opened.0) kept
            ∙ closing-opening opened.0 (open_fds k) (laws.on_socket sock_stream k).1)
        | inr e ↦ rw e (
            ap (closing_fd opened.0)
              (laws.on_close opened.0 tried.1 ∙ ap (closing_fd opened.0) kept)
            ∙ closing-twice opened.0 (open_fds k) (laws.on_socket sock_stream k).1)
      ]

  -- The datagram socket.
  pub udp_cclose-udp_socket :
      (garbage : InetAddr) (port : ℕ) (k : K)
      → open_fds (udp_cclose os (udp_socket os garbage port k).0 (udp_socket os garbage port k).1)
        ≡ open_fds k
  unfolding udp_socket udp_cclose
  udp_cclose-udp_socket garbage port k =
      let opened = os.socket sock_dgram k in
      laws.on_close opened.0 _
      ∙ ap (closing_fd opened.0) (
          laws.on_shutdown opened.0 _
          ∙ laws.on_bind opened.0 (address_at any port) opened.1
          ∙ (laws.on_socket sock_dgram k).0)
      ∙ closing-opening opened.0 (open_fds k) (laws.on_socket sock_dgram k).1

  -- When the connection to the server is refused, connectToServer answers that it was made all the
  -- same: the client counts as connected, with a socket whose descriptor it has and that is closed.
  pub dial-refused :
      (garbage : InetAddr) (ip : Str) (port fd : ℕ) (arrivals : List Arrival) (c : Client)
      (k opened tried : K)
      → os.socket sock_stream k ≡ (some fd, opened)
      → os.connect (some fd) (address_at (at ip) port) opened ≡ (false, tried)
      → let (answer, client, server_sock, k') = dial os garbage ip port arrivals c k in
        (answer ≡ true)
        × (client.connection_status ≡ true)
        × (server_sock.socket_fd ≡ some fd)
        × (is_open fd (open_fds k') ≡ false)
  unfolding dial client_socket connect_to_server
  dial-refused garbage ip port fd arrivals c k opened tried s t = rw s (
      rw t (
        refl,
        refl,
        refl,
        ap (is_open fd) (laws.on_close (some fd) tried) ∙ is_open-closing fd (open_fds tried),
      ))
