-- ===== src/Sockets/Tests.antt =====
-- A kernel that takes in no connection (msockets/src/TCPSocket.cpp).
use networking_programming_p.Base.{
  ℕ, suc, ◌+◌, ◌≤◌, ◌≡◌, refl, List, [], ◌∷◌, none, some, Bool, true, false, arith, codes,
}
use networking_programming_p.Client.{Client, new_client}
use networking_programming_p.Sockets.{Kernel, TcpSocket, no_address, dial}
use networking_programming_p.Sockets.Laws.{HasDescriptors, is_open, closing_fd, dial-refused}

-- The open descriptors; the next one is higher than all of them.
abbrev Fds : Type 0
Fds = List ℕ

abbrev fresh : Fds → ℕ
fresh [] = 3
fresh (fd ∷ fds) = suc (fd + fresh fds)

is_open-fresh : (fds : Fds) (n : ℕ) → fresh fds ≤ n → is_open n fds ≡ false
is_open-fresh [] n h = refl
is_open-fresh (fd ∷ fds) n h = ground (arith, is_open-fresh fds n)

abbrev deaf : Kernel Fds
deaf = record {
  socket = λ kind fds. (some (fresh fds), fresh fds ∷ fds);
  bind = λ fd a fds. (true, fds);
  connect = λ fd a fds. (false, fds);
  listen = λ fd n fds. (true, fds);
  accept = λ fd fds. (none, fds);
  shutdown = λ fd fds. fds;
  close = closing_fd;
  send_to = λ fd msg a fds. (true, fds);
}

deaf-HasDescriptors : HasDescriptors deaf (λ fds. fds)
deaf-HasDescriptors = record {
  on_socket = λ kind fds. (refl, is_open-fresh fds (fresh fds) (omega arith));
  on_accept = λ fd fds. (refl, tt);
  on_bind = λ fd a fds. refl;
  on_connect = λ fd a fds. refl;
  on_listen = λ fd n fds. refl;
  on_shutdown = λ fd fds. refl;
  on_close = λ fd fds. refl;
}

abbrev dialled : Bool × Client × TcpSocket × Fds
dialled = dial deaf no_address (codes "10.0.0.1") 3346 [] new_client []

dial-refused_example :
    (dialled.0 ≡ true)
    × (dialled.1.connection_status ≡ true)
    × (dialled.2.socket_fd ≡ some 3)
    × (is_open 3 dialled.3 ≡ false)
dial-refused_example =
    dial-refused deaf (λ fds. fds) deaf-HasDescriptors no_address (codes "10.0.0.1") 3346 3 []
      new_client [] (3 ∷ []) (3 ∷ []) refl refl
