-- ===== src/Dispatcher/Rooms.antt =====
-- Dispatcher::create_chatroom, join_chatroom and leave_chatroom (ServerSide/src/Dispatcher.cpp).
pub mod Create
pub mod Owner
pub mod Join
pub mod Leave
pub mod JoinLeave
pub mod Tests
use networking_programming_p.Base.{
  Str, List, [], ◌∷◌, ◌++◌, none, some, true, false, str_eq, ◌==◌, length, if◌then◌else◌,
}
use networking_programming_p.OrderedMap.{OrderedMap, find, insert, erase}
use networking_programming_p.Protocol.{
  chatroom_created, new_user_to_chatroom, chatroom_list, chatroom_was_closed,
  user_has_left_chatroom, open_session_error2, connection_error,
}
use networking_programming_p.Dispatcher.State.{Pointer, Socket, User, new_chat_room}
use networking_programming_p.Dispatcher.Monad.{
  M, ◌>>=◌, branch◌then◌else◌, on_option, ◌>>◌, pure, gets, modify, deref, load_user, store_user,
  load_room, store_room, user_at, write_command, write_msg, read, allocate_room,
}
use networking_programming_p.Dispatcher.Caller.{scan_users, current_user}
use networking_programming_p.Dispatcher.Sessions.{address_of}
use networking_programming_p.Dispatcher.Members.{add_member, remove_member}

-- `owner` after the loop of create_chatroom: the name of the first user with the socket, or "".
unfoldable pub owner_name : (Pointer → User) → Socket → OrderedMap Pointer → Str
owner_name users sock [] = []
owner_name users sock ((name, p) ∷ m) =
    let rest = owner_name users sock m in if (users p).socket == sock then (users p).name else rest

-- Dispatcher::create_chatroom; `_user` starts as the argument here.
unfoldable pub create_chatroom : Pointer → Str → M (Unit {0})
create_chatroom user name = do
  chatroom ← allocate_room new_chat_room
  this ← load_user user
  found ← gets (λ w. scan_users w.users this.socket (some user) w.users_map)
  caller ← deref found
  owner ← gets (λ w. owner_name w.users this.socket w.users_map)
  store_room chatroom (λ r. record r { name = name })
  modify (λ w. record w { chatrooms_map = insert name chatroom w.chatrooms_map })
  write_command this.socket chatroom_created
  store_user caller
      (λ u. record u { connection_status = true; connected_to_chat_room = some chatroom })
  store_room chatroom (λ r. record r { owner = owner; users = r.users ++ (owner ∷ []) })

-- What the first loop of join_chatroom sends to one member's socket.
unfoldable pub announce_to : Socket → Str → Socket → M (Unit {0})
announce_to member name sock = branch member == 0 then pure tt else (do
  write_command member new_user_to_chatroom
  write_msg member name
  text ← address_of sock
  write_msg member text)

-- The first loop of join_chatroom: each member is told of the newcomer.
unfoldable pub announce : Str → Socket → List Str → M (Unit {0})
announce name sock [] = pure tt
announce name sock (username ∷ us) = do
  member ← user_at username
  u ← load_user member
  announce_to u.socket name sock
  announce name sock us

-- The second loop of join_chatroom: the newcomer is told of each member.
unfoldable pub send_members : Socket → List Str → M (Unit {0})
send_members sock [] = pure tt
send_members sock (username ∷ us) = do
  write_msg sock username
  member ← user_at username
  u ← load_user member
  text ← address_of u.socket
  write_msg sock text
  send_members sock us

-- The branch of join_chatroom in which the room exists.
unfoldable pub enter_room : Socket → Pointer → Pointer → M (Unit {0})
enter_room sock caller chatroom = do
  me ← load_user caller
  room ← load_room chatroom
  announce me.name me.socket room.users
  write_command sock chatroom_list
  write_command sock (length room.users)
  send_members sock room.users
  store_room chatroom (add_member me.name)
  store_user caller
      (λ u. record u { connection_status = true; connected_to_chat_room = some chatroom })
  modify (λ w. record w { users_map = insert me.name caller w.users_map })

-- Dispatcher::join_chatroom
unfoldable pub join_chatroom : Pointer → M (Unit {0})
join_chatroom user = do
  this ← load_user user
  name ← read this.socket
  caller ← current_user this.socket
  room ← gets (λ w. find name w.chatrooms_map)
  on_option room (create_chatroom user name) λ chatroom. enter_room this.socket caller chatroom

-- The loop of leave_chatroom if the owner leaves: each member is told and disconnected.
unfoldable pub dismiss : List Str → M (Unit {0})
dismiss [] = pure tt
dismiss (username ∷ us) = do
  member ← user_at username
  u ← load_user member
  branch u.socket == 0 then pure tt else write_command u.socket chatroom_was_closed
  store_user member (λ v. record v { connection_status = false; connected_to_chat_room = none })
  dismiss us

-- What the loop of leave_chatroom sends to one member's socket if another user leaves.
unfoldable pub tell_left_to : Socket → Str → M (Unit {0})
tell_left_to member name =
    branch member == 0
    then pure tt
    else (do write_command member user_has_left_chatroom; write_msg member name)

-- The loop of leave_chatroom if another user leaves: each member is told who.
unfoldable pub tell_left : Str → List Str → M (Unit {0})
tell_left name [] = pure tt
tell_left name (username ∷ us) = do
  member ← user_at username
  u ← load_user member
  tell_left_to u.socket name
  tell_left name us

-- leave_chatroom for a caller that is in a room
unfoldable pub leave_room : Pointer → Pointer → M (Unit {0})
leave_room caller chatroom = do
  me ← load_user caller
  room ← load_room chatroom
  branch str_eq room.owner me.name
      then (do
        dismiss room.users
        modify (λ w. record w { chatrooms_map = erase room.name w.chatrooms_map }))
      else (do
        tell_left me.name room.users
        store_user caller
            (λ u. record u { connection_status = false; connected_to_chat_room = none }))
  store_room chatroom (remove_member me.name)

-- Dispatcher::leave_chatroom
unfoldable pub leave_chatroom : Pointer → M (Unit {0})
leave_chatroom user = do
  this ← load_user user
  caller ← current_user this.socket
  me ← load_user caller
  branch me.connection_status
      then on_option me.connected_to_chat_room (write_command this.socket open_session_error2)
          (λ chatroom. leave_room caller chatroom)
      else write_command this.socket connection_error
