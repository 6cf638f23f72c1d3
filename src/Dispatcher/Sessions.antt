-- ===== src/Dispatcher/Sessions.antt =====
-- Dispatcher::open_session and Dispatcher::close_session.
pub mod Open
pub mod Close
pub mod OpenClose
use networking_programming_p.Base.{
  Str, [], ◌∷◌, none, some, Bool, true, false, not, ◌&&◌, ◌||◌, str_eq, if◌then◌else◌,
}
use networking_programming_p.Address.{dest_ip_and_port}
use networking_programming_p.OrderedMap.{OrderedMap, contains, insert, erase}
use networking_programming_p.Protocol.{
  open_session_error, target_ip_and_port, incomimg_session, open_connection_error, session_ended,
  close_session_error,
}
use networking_programming_p.Dispatcher.State.{Pointer, Socket}
use networking_programming_p.Dispatcher.Monad.{
  M, ◌>>=◌, branch◌then◌else◌, on_option, ◌>>◌, gets, modify, load_user, store_user, user_at,
  write_command, write_msg, read,
}
use networking_programming_p.Dispatcher.Caller.{current_user}

-- destIpAndPort of a socket
unfoldable pub address_of : Socket → M Str
address_of sock = gets (λ w. dest_ip_and_port (w.address sock))

-- The branch of open_session that connects the two users.
unfoldable pub start_session : Socket → Pointer → Pointer → M (Unit {0})
start_session sock caller target = do
  me ← load_user caller
  peer ← load_user target
  target_ip_and_port_text ← address_of peer.socket
  write_command sock target_ip_and_port
  write_msg sock peer.name
  write_msg sock target_ip_and_port_text
  user_ip_and_port ← address_of sock
  write_command peer.socket incomimg_session
  write_msg peer.socket me.name
  write_msg peer.socket user_ip_and_port
  store_user target (λ u. record u { connection_status = true; connected_to_user = some caller })
  store_user caller (λ u. record u { connection_status = true })
  modify (λ w. record w { in_session_with = insert me.name peer.name w.in_session_with })

-- open_session behind the test of the target's name
unfoldable pub try_session : Socket → Str → Str → Pointer → Pointer → M (Unit {0})
try_session sock user_name peer_usr caller target = do
  me ← load_user caller
  peer ← load_user target
  known ← gets (λ w. contains peer_usr w.users_map)
  branch not me.connection_status && not peer.connection_status
      then branch known && not (str_eq user_name peer_usr)
        then start_session sock caller target
        else write_command sock open_session_error
      else write_command sock open_connection_error

-- open_session behind its two reads
unfoldable pub open_named : Socket → Str → Str → M (Unit {0})
open_named sock user_name peer_usr = do
  caller ← current_user sock
  target ← user_at peer_usr
  peer ← load_user target
  branch str_eq peer.name peer_usr
      then try_session sock user_name peer_usr caller target
      else write_command sock open_session_error

-- Dispatcher::open_session
unfoldable pub open_session : Pointer → M (Unit {0})
open_session user = do
  this ← load_user user
  user_name ← read this.socket
  peer_usr ← read this.socket
  open_named this.socket user_name peer_usr

-- The variables of close_session's loop.
pub record Found : Type 0 where
  pub partner : Str
  pub first : Bool
  pub second : Bool

-- The loop of close_session over in_session_with; a later entry overwrites the partner.
unfoldable pub scan_sessions : Str → Found → OrderedMap Str → Found
scan_sessions name found [] = found
scan_sessions name found ((starter, peer) ∷ m) =
    scan_sessions name
      (if str_eq starter name
        then record found { partner = peer; first = true }
        else if str_eq peer name
        then record found { partner = starter; second = true }
        else found)
      m

-- The branch of close_session in which a session was found.
unfoldable pub end_session : Str → Found → M (Unit {0})
end_session name found = do
  partner ← user_at found.partner
  peer ← load_user partner
  write_command peer.socket session_ended
  store_user partner (λ u. record u { connection_status = false; connected_to_user = none })
  self ← user_at name
  store_user self (λ u. record u { connection_status = false; connected_to_user = none })
  modify λ w. record w {
    in_session_with = erase (if found.first then name else found.partner) w.in_session_with;
  }

-- Dispatcher::close_session
unfoldable pub close_session : Pointer → M (Unit {0})
close_session user = do
  this ← load_user user
  caller ← current_user this.socket
  me ← load_user caller
  found ← gets (λ w.
      scan_sessions me.name (record { partner = []; first = false; second = false })
        w.in_session_with)
  branch found.first || found.second
      then end_session me.name found
      else write_command me.socket close_session_error
