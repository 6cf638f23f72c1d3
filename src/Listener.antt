-- ===== src/Listener.antt =====
-- The choice of the next socket (msockets/src/MultipleTCPSocketsListener.cpp).
use networking_programming_p.Base.{List, [], ◌∷◌, ◌++◌, Bool, true, false, ◌≡◌, if◌then◌else◌, All}
use networking_programming_p.Dispatcher.State.{Socket}

-- What select(2) gives: 0 at its timeout, or else a count or -1, with the set as it is then.
pub data Selected : Type 0 where
  timed_out : Selected
  selected : (Socket → Bool) → Selected

-- The loop over `sockets` behind select; 0 is NULL.
unfoldable pub first_set : (Socket → Bool) → List Socket → Socket
first_set is_set [] = 0
first_set is_set (tmp_socket ∷ sockets) =
    let rest = first_set is_set sockets in if is_set tmp_socket then tmp_socket else rest

-- MultipleTCPSocketsListener::listenToSocket
unfoldable pub listen_to_socket : Selected → List Socket → Socket
listen_to_socket timed_out sockets = 0
listen_to_socket (selected is_set) sockets = first_set is_set sockets

first_set-append :
    (is_set : Socket → Bool) (before after : List Socket) (s : Socket)
    → All (λ t. is_set t ≡ false) before
    → is_set s ≡ true
    → first_set is_set (before ++ (s ∷ after)) ≡ s
unfolding first_set
first_set-append is_set [] after s a h = rw h
first_set-append is_set (b ∷ before) after s a h =
    rw (a.0, first_set-append is_set before after s a.1 h)

-- The socket that listenToSocket returns is the first that is ready, in the order in which the
-- sockets were added: any others that are ready have to wait.
pub listen_to_socket-first :
    (is_set : Socket → Bool) (before after : List Socket) (s : Socket)
    → All (λ t. is_set t ≡ false) before
    → is_set s ≡ true
    → listen_to_socket (selected is_set) (before ++ (s ∷ after)) ≡ s
unfolding listen_to_socket
listen_to_socket-first is_set before after s a h = first_set-append is_set before after s a h
