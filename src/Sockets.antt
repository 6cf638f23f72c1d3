-- ===== src/Sockets.antt =====
-- The sockets (msockets/src/TCPSocket.cpp, msockets/src/UDPSocket.cpp) and what makes them in the
-- client (Client::connectToServer in ClientSide/src/Client.cpp, ClientSide/src/Peer2Peer.cpp) and
-- in the server (Server::run in ServerSide/src/Server.cpp). The system calls are parameters, on a
-- state of the kernel of any type. What the methods print is left out.
pub mod Laws
pub mod Threads
pub mod Tests
use networking_programming_p.Base.{
  ℕ, zero, suc, ◌%◌, ◌^◌, Str, List, [], ◌∷◌, Option, none, some, Bool, true, false, if◌then◌else◌,
}
use networking_programming_p.Wire.{Arrival}
use networking_programming_p.Client.{Client}
use networking_programming_p.Client.Requests.{connect_to_server}
use networking_programming_p.Dispatcher.State.{Socket}

-- An int that is a descriptor, or -1.
abbrev pub Fd : Type 0
Fd = Option ℕ

-- A sockaddr_in: INADDR_ANY or the address that inet_addr makes of a text, and a port of 16 bits.
pub data Host : Type 0 where
  cleared : Host
  any : Host
  at : Str → Host

pub record InetAddr : Type 0 where
  pub host : Host
  pub port : ℕ

-- bzero
abbrev pub no_address : InetAddr
no_address = record { host = cleared; port = 0 }

-- htons((u_short) port)
abbrev pub address_at : Host → ℕ → InetAddr
address_at host port = record { host = host; port = port % 2 ^ 16 }

pub data Kind : Type 0 where
  sock_stream : Kind
  sock_dgram : Kind

-- The system calls. A Bool says that the result is not negative.
pub record Kernel (K : Type 0) : Type 0 where
  pub socket : Kind → K → Fd × K
  pub bind : Fd → InetAddr → K → Bool × K
  pub connect : Fd → InetAddr → K → Bool × K
  pub listen : Fd → ℕ → K → Bool × K
  pub accept : Fd → K → Option (ℕ × InetAddr) × K
  pub shutdown : Fd → K → K
  pub close : Fd → K → K
  pub send_to : Fd → Str → InetAddr → K → Bool × K

-- TCPSocket
pub record TcpSocket : Type 0 where
  pub server_addr : InetAddr
  pub peer_addr : InetAddr
  pub socket_fd : Fd

-- TCPSocket::TCPSocket(int, sockaddr_in, sockaddr_in)
abbrev pub adopted : ℕ → InetAddr → InetAddr → TcpSocket
adopted connected_sock server_addr peer_addr = record {
  server_addr = server_addr;
  peer_addr = peer_addr;
  socket_fd = some connected_sock;
}

-- TCPSocket::getSocketFid
abbrev pub get_socket_fid : TcpSocket → Fd
get_socket_fid s = s.socket_fd

-- `getSocketFid() < 0` is not so.
abbrev pub is_descriptor : Fd → Bool
is_descriptor none = false
is_descriptor (some fd) = true

-- UDPSocket; `from` is the sender of the last datagram.
pub record UdpSocket : Type 0 where
  pub s_in : InetAddr
  pub from : InetAddr
  pub udp_fd : Fd

module _ {K : Type 0} (os : Kernel K) where
  -- TCPSocket::TCPSocket(int port); the members that it does not set have any value. A failing
  -- bind is reported on stderr only.
  unfoldable pub server_socket : InetAddr → ℕ → K → TcpSocket × K
  server_socket peer_addr port k =
      let (fd, opened) = os.socket sock_stream k in
      let server_addr = address_at any port in
      let bound = (os.bind fd server_addr opened).1 in
      (record { server_addr = server_addr; peer_addr = peer_addr; socket_fd = fd }, bound)

  -- TCPSocket::TCPSocket(string peerIp, int port): when connect fails, the descriptor is closed and
  -- stays in the object.
  unfoldable pub client_socket : InetAddr → Str → ℕ → K → TcpSocket × K
  client_socket server_addr peer_ip port k =
      let (fd, opened) = os.socket sock_stream k in
      let peer_addr = address_at (at peer_ip) port in
      let (is_connected, tried) = os.connect fd peer_addr opened in
      (
        record { server_addr = server_addr; peer_addr = peer_addr; socket_fd = fd },
        if is_connected then tried else os.close fd tried,
      )

  -- TCPSocket::listenAndAccept: the new socket, if there is one, and the listening one.
  unfoldable pub listen_and_accept : TcpSocket → K → Option TcpSocket × TcpSocket × K
  listen_and_accept s k =
      let (is_listening, listened) = os.listen s.socket_fd 1 k in
      let (accepted, k') = os.accept s.socket_fd listened in
      if is_listening
      then elim accepted [
        | none ↦ (none, record s { peer_addr = no_address }, k')
        | some (connect_sock, peer) ↦
            (some (adopted connect_sock s.server_addr peer), record s { peer_addr = peer }, k')
      ]
      else (none, s, listened)

  -- TCPSocket::cclose
  unfoldable pub cclose : TcpSocket → K → K
  cclose s k = os.close s.socket_fd (os.shutdown s.socket_fd k)

  -- UDPSocket::UDPSocket
  unfoldable pub udp_socket : InetAddr → ℕ → K → UdpSocket × K
  udp_socket from port k =
      let (fd, opened) = os.socket sock_dgram k in
      let s_in = address_at any port in
      (record { s_in = s_in; from = from; udp_fd = fd }, (os.bind fd s_in opened).1)

  -- UDPSocket::sendTo
  unfoldable pub udp_send_to : UdpSocket → Str → Str → ℕ → K → Bool × K
  udp_send_to s msg ip port k = os.send_to s.udp_fd msg (address_at (at ip) port) k

  -- UDPSocket::reply
  unfoldable pub reply : UdpSocket → Str → K → Bool × K
  reply s msg k = os.send_to s.udp_fd msg s.from k

  -- UDPSocket::cclose
  unfoldable pub udp_cclose : UdpSocket → K → K
  udp_cclose s k = os.close s.udp_fd (os.shutdown s.udp_fd k)

  -- Client::connectToServer: its answer, the client, its server_sock and the kernel.
  unfoldable pub dial :
      InetAddr → Str → ℕ → List Arrival → Client → K → Bool × Client × TcpSocket × K
  unfolding client_socket
  dial garbage ip port arrivals c k =
      let (server_sock, k') = client_socket garbage ip port k in
      let (answer, c') =
        connect_to_server (is_descriptor (get_socket_fid server_sock)) arrivals c in
      (answer, c', server_sock, k')
