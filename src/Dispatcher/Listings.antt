-- ===== src/Dispatcher/Listings.antt =====
-- The list requests of ServerSide/src/Dispatcher.cpp.
use networking_programming_p.Base.{ℕ, Str, List, [], ◌∷◌, length, if◌then◌else◌}
use networking_programming_p.OrderedMap.{find, keys}
use networking_programming_p.Protocol.{
  all_users_list, users_list, chatrooms_list, chatroom_users_list, chatroom_name_error,
  open_connection_error,
}
use networking_programming_p.Dispatcher.State.{Pointer, Socket}
use networking_programming_p.Dispatcher.Monad.{
  M, ◌>>=◌, branch◌then◌else◌, on_option, ◌>>◌, pure, gets, load_user, load_room, write_command,
  write_msg, read,
}

-- A loop of writeMsg
unfoldable pub write_all : Socket → List Str → M (Unit {0})
write_all sock [] = pure tt
write_all sock (name ∷ names) = do write_msg sock name; write_all sock names

-- The form that the four lists share: a command, the size, the names.
unfoldable pub write_list : Socket → ℕ → List Str → M (Unit {0})
write_list sock command names = do
  write_command sock command
  write_command sock (length names)
  write_all sock names

-- Dispatcher::list_all_users
unfoldable pub list_all_users : Pointer → M (Unit {0})
list_all_users user = do
  this ← load_user user
  names ← gets (λ w. w.all_users_infile_vector)
  write_list this.socket all_users_list names

-- Dispatcher::list_users
unfoldable pub list_users : Pointer → M (Unit {0})
list_users user = do
  this ← load_user user
  names ← gets (λ w. keys w.users_map)
  write_list this.socket users_list names

-- Dispatcher::list_chatrooms
unfoldable pub list_chatrooms : Pointer → M (Unit {0})
list_chatrooms user = do
  this ← load_user user
  names ← gets (λ w. keys w.chatrooms_map)
  write_list this.socket chatrooms_list names

-- Dispatcher::list_chatroom_users; the status it tests is that of the loop's own User object.
unfoldable pub list_chatroom_users : Pointer → M (Unit {0})
list_chatroom_users user = do
  this ← load_user user
  name ← read this.socket
  branch this.connection_status then write_command this.socket open_connection_error else (do
    found ← gets (λ w. find name w.chatrooms_map)
    on_option found (write_command this.socket chatroom_name_error) λ chatroom. do
      room ← load_room chatroom
      write_list this.socket chatroom_users_list room.users)
