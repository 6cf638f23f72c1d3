-- ===== src/Dispatcher/Sessions/Open.antt =====
-- open_session, branch by branch (ServerSide/src/Dispatcher.cpp).
use networking_programming_p.Base.{
  append_assoc, ◌∙◌, ◌≡◌, Str, List, ◌++◌, none, some, true, not, ◌&&◌, arith, str_eq, str_eq_iff,
  if◌then◌else◌,
}
use networking_programming_p.Wire.{Arrival, read_msg}
use networking_programming_p.Address.{dest_ip_and_port}
use networking_programming_p.OrderedMap.{find, insert}
use networking_programming_p.Protocol.{
  open_session_error, target_ip_and_port, incomimg_session, open_connection_error,
}
use networking_programming_p.Dispatcher.State.{Pointer, Socket, User, Packet, World, update}
use networking_programming_p.Dispatcher.Monad.{M, ◌>>=◌, command_packets, msg_packets, user_at}
use networking_programming_p.Dispatcher.Steps.{
  >>=_step, >>=_fault, current_user_lem, send, consumed, read_two, user_at_lem, user_at_fault,
  contains_of_find,
}
use networking_programming_p.Dispatcher.Caller.{scan_users, current_user}
use networking_programming_p.Dispatcher.Sessions.{
  address_of, start_session, open_named, try_session, open_session,
}

-- The request that `user`'s socket has sent: its own name and a peer's, then `rest`; `caller` is
-- the user that the dispatcher takes it for.
pub record Asks (w : World) (user caller : Pointer) (user_name peer : Str) (rest : List Arrival)
    : Type 0 where
  pub middle : List Arrival
  pub named : read_msg (w.inbox (w.users user).socket) ≡ some (user_name, middle)
  pub asked : read_msg middle ≡ some (peer, rest)
  pub found : scan_users w.users (w.users user).socket none w.users_map ≡ some caller

-- The packets of a session that is opened.
abbrev pub session_packets : Socket → User → User → World → List Packet
session_packets sock me peer w =
    command_packets sock target_ip_and_port
    ++ (msg_packets sock peer.name
        ++ (msg_packets sock (dest_ip_and_port (w.address peer.socket))
            ++ (command_packets peer.socket incomimg_session
                ++ (msg_packets peer.socket me.name
                    ++ msg_packets peer.socket (dest_ip_and_port (w.address sock))))))

-- The world after a session was opened.
unfoldable pub opened : Socket → Pointer → Pointer → World → World
opened sock caller target w = record w {
  users =
      update
        (update w.users target
          (record (w.users target) { connection_status = true; connected_to_user = some caller }))
        caller
        (record (update w.users target
          (record (w.users target) { connection_status = true; connected_to_user = some caller })
          caller) { connection_status = true });
  in_session_with = insert (w.users caller).name (w.users target).name w.in_session_with;
  sent = w.sent ++ session_packets sock (w.users caller) (w.users target) w;
}

start_session_lem :
    (sock : Socket) (caller target : Pointer) (w : World)
    → start_session sock caller target w ≡ some (tt, opened sock caller target w)
unfolding start_session opened address_of ◌>>=◌
start_session_lem sock caller target w = simp append_assoc

try_session_lem :
    (sock : Socket) (user_name peer_usr : Str) (caller target : Pointer) (w : World)
    → find peer_usr w.users_map ≡ some target
    → try_session sock user_name peer_usr caller target w
      ≡ some (
        tt,
        if not (w.users caller).connection_status && not (w.users target).connection_status
            then (if str_eq user_name peer_usr
                then send (command_packets sock open_session_error) w
                else opened sock caller target w)
            else send (command_packets sock open_connection_error) w,
      )
unfolding try_session ◌>>=◌
try_session_lem sock user_name peer_usr caller target w h =
    ground (arith, contains_of_find peer_usr w h, start_session_lem sock caller target w)

-- The world once both names of a request were read.
abbrev pub asked_of : Pointer → List Arrival → World → World
asked_of user rest w = consumed (w.users user).socket rest w

module _ (w : World) (user caller : Pointer) (user_name peer : Str) (rest : List Arrival)
    (a : Asks w user caller user_name peer rest) where
  open_session-open_named :
      open_session user w ≡ open_named (w.users user).socket user_name peer (asked_of user rest w)
  unfolding open_session ◌>>=◌
  open_session-open_named =
      read_two (w.users user).socket w user_name peer a.middle rest
        (open_named (w.users user).socket) a.named a.asked

  -- The caller is found whatever was read before.
  open_named-found :
      (f : Pointer → M (Unit {0}))
      → (current_user (w.users user).socket >>= f) (asked_of user rest w)
        ≡ f caller (asked_of user rest w)
  open_named-found f =
      >>=_step (current_user _) f (current_user_lem _ (asked_of user rest w) caller a.found)

-- open_session for a peer who is connected under its own name, on all its branches. If neither
-- user has its flag set, the session is opened, but for a caller that gave its peer's name as its
-- own, which is sent OPEN_SESSION_ERROR; if one has it set, the caller is sent
-- OPEN_CONNECTION_ERROR. In the refusals nothing changes but what was read and sent.
pub open_session_lem :
    (w : World) (user caller target : Pointer) (user_name peer : Str) (rest : List Arrival)
    → Asks w user caller user_name peer rest
    → find peer w.users_map ≡ some target
    → (w.users target).name ≡ peer
    → open_session user w
      ≡ some (
        tt,
        if not (w.users caller).connection_status && not (w.users target).connection_status
            then (if str_eq user_name peer
                then send
                    (command_packets (w.users user).socket open_session_error)
                    (asked_of user rest w)
                else opened (w.users user).socket caller target (asked_of user rest w))
            else send
                (command_packets (w.users user).socket open_connection_error)
                (asked_of user rest w),
      )
unfolding open_named ◌>>=◌
open_session_lem w user caller target user_name peer rest a h k =
    open_session-open_named w user caller user_name peer rest a
    ∙ open_named-found w user caller user_name peer rest a _
    ∙ >>=_step (user_at peer) _ (user_at_lem peer (asked_of user rest w) target h)
    ∙ rw ((str_eq_iff (w.users target).name peer).1 k)
        (try_session_lem _ user_name peer caller target (asked_of user rest w) h)

-- A request for a peer who is not connected dereferences NULL.
pub open_session-fault :
    (w : World) (user caller : Pointer) (user_name peer : Str) (rest : List Arrival)
    → Asks w user caller user_name peer rest
    → find peer w.users_map ≡ none
    → open_session user w ≡ none
unfolding open_named ◌>>=◌
open_session-fault w user caller user_name peer rest a h =
    open_session-open_named w user caller user_name peer rest a
    ∙ open_named-found w user caller user_name peer rest a _
    ∙ >>=_fault (user_at peer) _ (user_at_fault peer (asked_of user rest w) h)
