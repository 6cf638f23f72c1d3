-- ===== src/Client/Run.antt =====
-- The thread that answers the server (ClientSide/src/Client.cpp, Client::run).
use networking_programming_p.Base.{
  ℕ, zero, suc, Option, none, some, [], true, false, ◌==◌, if◌then◌else◌,
}
use networking_programming_p.Wire.{read_command}
use networking_programming_p.Protocol.{
  confirm_user, incomimg_session, open_session_error, close_session_error, enter_chatroom_name,
  create_chatroom_name_error, chatroom_name_error, close_chatroom_owner_error, session_ended,
  new_user_to_chatroom, user_has_left_chatroom, chatroom_is_closing, chatroom_list,
  target_ip_and_port, users_list, chatrooms_list, chatroom_created, chatroom_was_closed,
  chatroom_close_error, chatroom_users_list, all_users_list,
}
use networking_programming_p.Client.{Client}
use networking_programming_p.Client.Requests.{close_connection}
use networking_programming_p.Client.Handlers.{
  got_names, got_chatroom_users_list, got_session_partner, logged_in, user_has_joined_chatroom,
}
use networking_programming_p.Client.Handlers

-- The cases that end the session.
abbrev pub no_session : Client → Client
no_session c = record c { is_in_session = false }

-- The switch of run; the cases that are not named here only print.
unfoldable pub switch : ℕ → Client → Option Client
switch command c =
    if command == all_users_list
    then got_names c
    else if command == confirm_user
    then logged_in c
    else if command == incomimg_session
    then got_session_partner c
    else if command == open_session_error
    then some (no_session c)
    else if command == close_session_error
    then some (no_session c)
    else if command == enter_chatroom_name
    then some (record c { is_in_session = true })
    else if command == chatroom_created
    then some (record c { is_in_chat_room = true; is_room_owner = true; is_in_session = true })
    else if command == chatroom_was_closed
    then some (no_session (Handlers.chatroom_was_closed c))
    else if command == chatroom_close_error
    then some (no_session c)
    else if command == create_chatroom_name_error
    then some (record c { is_in_session = false; chat_name = [] })
    else if command == chatroom_name_error
    then some (no_session c)
    else if command == close_chatroom_owner_error
    then some (no_session c)
    else if command == session_ended
    then some (no_session c)
    else if command == new_user_to_chatroom
    then user_has_joined_chatroom c
    else if command == user_has_left_chatroom
    then Handlers.user_has_left_chatroom c
    else if command == chatroom_is_closing
    then some (close_connection c)
    else if command == users_list
    then got_names c
    else if command == chatrooms_list
    then got_names c
    else if command == chatroom_list
    then got_chatroom_users_list c
    else if command == target_ip_and_port
    then got_session_partner c
    else if command == chatroom_users_list
    then got_names c
    else some c

-- The body of the loop.
unfoldable pub round : Client → Option Client
round c =
    let (command, rest) = read_command c.inbox in
    if command == 0
    then some (record c { inbox = rest })
    else switch command (record c { inbox = rest })

-- The loop on fuel, where one round takes one unit.
unfoldable pub run : ℕ → Client → Option Client
run zero c = some c
run (suc f) c =
    if c.connection_status then elim (round c) [ none ↦ none | some c' ↦ run f c' ] else some c
