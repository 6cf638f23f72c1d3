-- ===== src/Dispatcher/Loop.antt =====
-- Dispatcher::user_exit, Dispatcher::close and the loop Dispatcher::run.
use networking_programming_p.Base.{
  ℕ, Str, List, [], ◌∷◌, none, some, false, str_eq, ◌==◌, if◌then◌else◌,
}
use networking_programming_p.Objects.{Object, delete_if_set}
use networking_programming_p.OrderedMap.{OrderedMap, erase}
use networking_programming_p.Protocol.{
  chatroom_was_closed, user_has_left_chatroom, bye_bye_msg, chatroom_is_closing,
  open_session_with_user, close_session_with_user, exit, get_all_users, open_chatroom,
  leave_chatroom as leave_chatroom_command, get_all_connected_users, get_all_chatrooms,
  get_chatroom_users,
}
use networking_programming_p.Listener.{Selected, listen_to_socket}
use networking_programming_p.Dispatcher.State.{Pointer, Socket, new_user}
use networking_programming_p.Dispatcher.Monad.{
  M, ◌>>=◌, branch◌then◌else◌, on_option, ◌>>◌, pure, gets, modify, load_user, store_user,
  load_room, store_room, user_at, write_command, write_msg, next_command, allocate_user,
}
use networking_programming_p.Dispatcher.Caller.{current_user}
use networking_programming_p.Dispatcher.Sessions.{open_session, close_session}
use networking_programming_p.Dispatcher.Members.{remove_member}
use networking_programming_p.Dispatcher.Rooms.{join_chatroom, leave_chatroom}
use networking_programming_p.Dispatcher.Listings.{
  list_all_users, list_users, list_chatrooms, list_chatroom_users,
}

-- The loop of user_exit if the owner exits.
unfoldable pub tell_closed : List Str → M (Unit {0})
tell_closed [] = pure tt
tell_closed (name ∷ us) = do
  member ← user_at name
  u ← load_user member
  write_command u.socket chatroom_was_closed
  tell_closed us

-- The loop of user_exit if another user exits.
unfoldable pub tell_exited : Str → List Str → M (Unit {0})
tell_exited left [] = pure tt
tell_exited left (name ∷ us) = do
  member ← user_at name
  u ← load_user member
  write_command u.socket user_has_left_chatroom
  write_msg u.socket left
  tell_exited left us

-- user_exit for a caller that is in a room
unfoldable pub exit_room : Pointer → Pointer → M (Unit {0})
exit_room caller chatroom = do
  me ← load_user caller
  room ← load_room chatroom
  branch str_eq room.owner me.name
      then (do
        tell_closed room.users
        modify (λ w. record w { chatrooms_map = erase room.name w.chatrooms_map }))
      else (do
        store_room chatroom (remove_member me.name)
        left ← load_room chatroom
        tell_exited me.name left.users)

-- The first part of user_exit: the caller's room or session is ended.
unfoldable pub disconnect : Pointer → M (Unit {0})
disconnect caller = do
  me ← load_user caller
  branch me.connection_status
      then on_option me.connected_to_chat_room (close_session caller)
          (λ chatroom. exit_room caller chatroom)
      else pure tt

-- Dispatcher::user_exit
unfoldable pub user_exit : Pointer → M (Unit {0})
user_exit user = do
  this ← load_user user
  caller ← current_user this.socket
  disconnect caller
  me ← load_user caller
  write_command me.socket bye_bye_msg
  modify (λ w. record w { users_map = erase me.name w.users_map })

-- The chain of tests in Dispatcher::run.
unfoldable pub handle : ℕ → Pointer → M (Unit {0})
handle command user =
    branch command == 0
    then pure tt
    else branch command == open_session_with_user
    then open_session user
    else branch command == close_session_with_user
    then close_session user
    else branch command == exit
    then user_exit user
    else branch command == get_all_users
    then list_all_users user
    else branch command == open_chatroom
    then join_chatroom user
    else branch command == leave_chatroom_command
    then leave_chatroom user
    else branch command == get_all_connected_users
    then list_users user
    else branch command == get_all_chatrooms
    then list_chatrooms user
    else branch command == get_chatroom_users
    then list_chatroom_users user
    else pure tt

-- One round of Dispatcher::run, for the socket that listenToSocket returned (0 is NULL).
unfoldable pub round : Socket → M (Unit {0})
round temp_sock = do
  current ← allocate_user new_user
  branch temp_sock == 0 then pure tt else (do
    command ← next_command temp_sock
    store_user current (λ u. record u { socket = temp_sock })
    handle command current)

-- The start of a round of Dispatcher::run: the listener is given users_vector.
unfoldable pub poll : Selected → M (Unit {0})
poll outcome = do sockets ← gets (λ w. w.users_vector); round (listen_to_socket outcome sockets)

-- Dispatcher::run, for the outcomes of select in one round after the other.
unfoldable pub run : List Selected → M (Unit {0})
run [] = pure tt
run (outcome ∷ outcomes) = do
  status ← gets (λ w. w.status)
  branch status then (do poll outcome; run outcomes) else pure tt

-- The loop of Dispatcher::close
unfoldable pub tell_closing : OrderedMap Pointer → M (Unit {0})
tell_closing [] = pure tt
tell_closing ((name, p) ∷ m) = do
  u ← load_user p
  write_command u.socket chatroom_is_closing
  tell_closing m

-- The end of Dispatcher::close
unfoldable pub delete_listener : Object → M Object
delete_listener listener w = elim (delete_if_set listener) [ none ↦ none | some o ↦ some (o, w) ]

-- Dispatcher::close; the argument and the result are what the field `listener` points to.
unfoldable pub close : Object → M Object
close listener = do
  modify (λ w. record w { status = false })
  m ← gets (λ w. w.users_map)
  tell_closing m
  delete_listener listener
