-- ===== src/Sockets/Threads.antt =====
-- Threads (msockets/src/MThread.cpp) and the object of a client that holds its datagram socket and
-- the thread that reads from it (ClientSide/src/Peer2Peer.cpp; its run is in Client/Peer). The calls
-- of pthread are recorded; which id pthread_create gives is an argument.
use networking_programming_p.Base.{
  ℕ, ◌<◌, ◌≡◌, refl, Str, List, [], ◌∷◌, ◌++◌, Bool, true, ltb, lt→ltb, if◌then◌else◌,
}
use networking_programming_p.Sockets.{
  InetAddr, Kernel, UdpSocket, udp_socket, udp_send_to, reply, udp_cclose,
}
use networking_programming_p.Sockets.Laws.{HasDescriptors, udp_cclose-udp_socket}

pub data ThreadCall : Type 0 where
  created : ℕ → ThreadCall
  joined : ℕ → ThreadCall
  cancelled : ℕ → ThreadCall

-- MThread, whose threadId is 0 where there is no thread.
pub record Thread : Type 0 where
  pub thread_id : ℕ
  pub calls : List ThreadCall

-- MThread::start
unfoldable pub start : ℕ → Thread → Thread
start id t = record { thread_id = id; calls = t.calls ++ (created id ∷ []) }

-- The end of worker, behind run.
unfoldable pub worker_end : Thread → Thread
worker_end t = record t { thread_id = 0 }

-- MThread::waitForThread
unfoldable pub wait_for_thread : Thread → Thread
wait_for_thread t = record { thread_id = 0; calls = t.calls ++ (joined t.thread_id ∷ []) }

-- MThread::~MThread
unfoldable pub destroy : Thread → Thread
destroy t =
    if ltb 0 t.thread_id then record t { calls = t.calls ++ (cancelled t.thread_id ∷ []) } else t

-- Peer2Peer, without its buffer.
pub record Peer2Peer : Type 0 where
  pub thread : Thread
  pub socket : UdpSocket
  pub port : ℕ
  pub running : Bool

module _ {K : Type 0} (os : Kernel K) where
  -- Peer2Peer::Peer2Peer
  unfoldable pub new_peer : InetAddr → Thread → ℕ → ℕ → K → Peer2Peer × K
  unfolding start
  new_peer garbage t id port k =
      let (socket, k') = udp_socket os garbage port k in
      (record { thread = start id t; socket = socket; port = port; running = true }, k')

  -- Peer2Peer::sendTo, which prints a line where it fails.
  unfoldable pub send_to : Peer2Peer → Str → Str → ℕ → K → K
  send_to p msg ip port k = (udp_send_to os p.socket msg ip port k).1

  -- Peer2Peer::reply, which does so too.
  unfoldable pub reply_to : Peer2Peer → Str → K → K
  reply_to p msg k = (reply os p.socket msg k).1

  -- Peer2Peer::close
  unfoldable pub close_peer : Peer2Peer → K → Peer2Peer × K
  unfolding destroy wait_for_thread
  close_peer p k =
      let k' = udp_cclose os p.socket k in
      (record p { thread = wait_for_thread (destroy p.thread) }, k')

module _ {K : Type 0} (os : Kernel K) (open_fds : K → List ℕ)
    (laws : HasDescriptors os open_fds) where
  -- A receiver that is made and closed again leaves the open descriptors as they were, and its
  -- thread is cancelled and then waited for, once each: if pthread_create gives it an id.
  pub close_peer-new_peer :
      (garbage : InetAddr) (t : Thread) (id port : ℕ) (k : K)
      → 0 < id
      → let (p, opened) = new_peer os garbage t id port k in
        let (q, closed) = close_peer os p opened in
        (open_fds closed ≡ open_fds k)
        × (q.thread.calls
            ≡ ((t.calls ++ (created id ∷ [])) ++ (cancelled id ∷ [])) ++ (joined id ∷ []))
        × (q.thread.thread_id ≡ 0)
  unfolding new_peer close_peer start destroy wait_for_thread
  close_peer-new_peer garbage t id port k h =
      (udp_cclose-udp_socket os open_fds laws garbage port k, rw (lt→ltb 0 id h) refl, refl)
