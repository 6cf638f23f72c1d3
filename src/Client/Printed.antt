-- ===== src/Client/Printed.antt =====
-- What the thread that answers the server prints in a round (ClientSide/src/Client.cpp,
-- Client::run and the methods that it calls), one text for each call of endl.
pub mod Lists
pub mod Peers
use networking_programming_p.Base.{
  ℕ, zero, suc, Str, List, [], ◌∷◌, ◌++◌, Option, none, some, true, false, codes, str_eq, ◌==◌,
  if◌then◌else◌,
}
use networking_programming_p.Wire.{Arrival, read_command, read_msg}
use networking_programming_p.Address.{decimal}
use networking_programming_p.Protocol.{
  login_or_signup, login_denied, username_taken, bad_command, confirm_user, incomimg_session,
  open_session_error, close_session_error, enter_chatroom_name, create_chatroom_name_error,
  chatroom_name_error, close_chatroom_owner_error, open_connection_error, session_ended,
  new_user_to_chatroom, leave_chatroom_error, open_session_error2, connection_error,
  chatroom_is_closing, chatroom_list, target_ip_and_port, users_list, chatrooms_list,
  chatroom_created, chatroom_close_error, chatroom_users_list, all_users_list, bye_bye_msg,
}
use networking_programming_p.Protocol
use networking_programming_p.Client.{Partner, Client}
use networking_programming_p.Client.Handlers.{list_size, partner_at}

abbrev pub Lines : Type 0
Lines = Option (List Str)

-- A line in front of what is printed later.
abbrev pub with_line : Str → Lines → Lines
with_line line none = none
with_line line (some lines) = some (line ∷ lines)

-- readMsg on server_sock, in what has arrived there.
unfoldable pub after_msg : (Str → List Arrival → Lines) → List Arrival → Lines
after_msg k q = elim (read_msg q) [ none ↦ none | some (msg, rest) ↦ k msg rest ]

-- A loop that reads a name and prints it, from the index `i` on.
unfoldable pub name_lines : Str → ℕ → ℕ → List Arrival → Lines
unfolding after_msg
name_lines label i zero q = some []
name_lines label i (suc n) q =
    after_msg
      (λ name rest.
        with_line (label ++ (decimal (suc i) ++ (codes ": " ++ name)))
          (name_lines label (suc i) n rest))
      q

-- readCommand on server_sock for the size of a list.
abbrev pub after_count : (ℕ → List Arrival → Lines) → List Arrival → Lines
after_count k q = let (count, rest) = read_command q in k count rest

-- Client::gotChatroomUsersNames
unfoldable pub got_chatroom_users_names : List Arrival → Lines
unfolding name_lines
got_chatroom_users_names =
    after_count (λ count. name_lines (codes "Chatroom user #") 0 (list_size count))

-- Client::gotUsersList
unfoldable pub got_users_list : List Arrival → Lines
unfolding name_lines
got_users_list = after_count (λ count. name_lines (codes "User #") 0 (list_size count))

-- Client::gotAllUsers
unfoldable pub got_all_users : List Arrival → Lines
unfolding name_lines
got_all_users = after_count (λ count rest.
    with_line (codes "*** ALL USERS ***") (name_lines (codes "User #") 0 (list_size count) rest))

-- Client::gotChatroomsList
unfoldable pub got_chatrooms_list : List Arrival → Lines
unfolding name_lines
got_chatrooms_list = after_count (λ count rest.
    if count == 0
    then some (codes "There are no open rooms at the moment" ∷ [])
    else name_lines (codes "Chatroom #") 0 (list_size count) rest)

-- A partner with its address in brackets.
abbrev pub partner_text : Partner → Str
partner_text p = p.name ++ (codes "(" ++ (p.ip ++ (codes ":" ++ (decimal p.port ++ codes ")"))))

-- The loop of gotChatroomUsersList.
unfoldable pub partner_lines : ℕ → List Arrival → Lines
unfolding after_msg
partner_lines zero q = some []
partner_lines (suc n) q =
    after_msg
      (λ name. after_msg (λ text rest.
        with_line (codes "Chatroom partner: " ++ partner_text (partner_at name text))
          (partner_lines n rest)))
      q

-- Client::gotChatroomUsersList
unfoldable pub got_chatroom_users_list : List Arrival → Lines
unfolding partner_lines
got_chatroom_users_list = after_count (λ count. partner_lines (list_size count))

-- Client::gotIpAndPort, with the text of the address as it was read.
unfoldable pub got_ip_and_port : List Arrival → Lines
unfolding after_msg
got_ip_and_port = after_msg (λ name. after_msg (λ text _. some (
    (codes "You are now in session with ->" ++ (name ++ (codes "(" ++ (text ++ codes ")")))) ∷ [])))

abbrev pub from_server : Str → Str
from_server text = codes "Got msg from server: " ++ text

-- Client::gotIncomingSession
unfoldable pub got_incoming_session : List Arrival → Lines
unfolding after_msg
got_incoming_session = after_msg (λ name. after_msg (λ text _. some (
    from_server (
      codes "You have an incoming session from: "
      ++ (name ++ (codes "(" ++ (text ++ codes "), use 's <message>' to send a msg"))))
    ∷ [])))

-- Client::userHasJoinedChatroom
unfoldable pub user_has_joined_chatroom : List Arrival → Lines
unfolding after_msg
user_has_joined_chatroom = after_msg (λ name.
    after_msg (λ text _. some ((codes "New user: " ++ partner_text (partner_at name text)) ∷ [])))

-- Client::userHasLeftChatroom, which prints before it erases.
unfoldable pub user_has_left_chatroom : Client → Lines
unfolding after_msg
user_has_left_chatroom c =
    after_msg
      (λ name _. some (
        (if str_eq name c.client_name
          then codes "you left the chat room"
          else name ++ codes " Has left the chatroom")
        ∷ []))
      c.inbox

-- Client::loggedIn, which prints nothing, behind the line of run.
unfoldable pub logged_in : List Arrival → Lines
unfolding after_msg
logged_in =
    after_msg
      (λ name. after_msg (λ text _. some (from_server (codes "You are now logged in") ∷ [])))

-- Client::chatroomWasClosed
unfoldable pub chatroom_was_closed : Client → Lines
chatroom_was_closed c = some (
    (if c.is_room_owner
      then codes "Your room was closed"
      else codes "The chatroom was closed by the owner")
    ∷ [])

abbrev pub told : Str → Lines
told text = some (from_server text ∷ [])

-- The switch of run.
unfoldable pub switch_lines : ℕ → Client → Lines
switch_lines command c =
    if command == login_or_signup
    then some (
        codes
          "Connection established\nLogin or register to enter a chat room or establish a session"
        ∷ [])
    else if command == login_denied
    then told (codes "Bad username or password")
    else if command == username_taken
    then told (codes "The username you entered is already taken")
    else if command == all_users_list
    then got_all_users c.inbox
    else if command == confirm_user
    then logged_in c.inbox
    else if command == bad_command
    then told (codes "You need to login/register first")
    else if command == incomimg_session
    then got_incoming_session c.inbox
    else if command == open_session_error
    then told (codes "Error opening session ")
    else if command == close_session_error
    then told (codes "You are not in session")
    else if command == enter_chatroom_name
    then told (codes "Enter chatroom name")
    else if command == chatroom_created
    then told (codes "Chatroom was created")
    else if command == Protocol.chatroom_was_closed
    then chatroom_was_closed c
    else if command == chatroom_close_error
    then told (codes "Can`t close chatroom, you are not the owner of any room")
    else if command == create_chatroom_name_error
    then told (codes "Chatroom name already exists")
    else if command == chatroom_name_error
    then told (codes "A chatroom with that name doesn't exists")
    else if command == close_chatroom_owner_error
    then told (codes "You are not the owner of this chatroom")
    else if command == open_connection_error
    then told (codes "The user is already in session or chatroom\nTry again Later...")
    else if command == session_ended
    then told (codes "Session has ended")
    else if command == new_user_to_chatroom
    then user_has_joined_chatroom c.inbox
    else if command == Protocol.user_has_left_chatroom
    then user_has_left_chatroom c
    else if command == leave_chatroom_error
    then told (codes "You are the owner of the chatroom, you must close it")
    else if command == open_session_error2
    then told (codes "You have an open session")
    else if command == connection_error
    then told (codes "You don't have any open connections")
    else if command == chatroom_is_closing
    then some (codes "closing socket" ∷ from_server (codes "Server is Shutdown") ∷ [])
    else if command == users_list
    then got_users_list c.inbox
    else if command == chatrooms_list
    then got_chatrooms_list c.inbox
    else if command == chatroom_list
    then got_chatroom_users_list c.inbox
    else if command == target_ip_and_port
    then got_ip_and_port c.inbox
    else if command == chatroom_users_list
    then got_chatroom_users_names c.inbox
    else if command == bye_bye_msg
    then told (codes "Bye Bye")
    else some []

-- A round of run; the command 0 starts the next round.
unfoldable pub round_lines : Client → Lines
round_lines c =
    let (command, rest) = read_command c.inbox in
    if command == 0 then some [] else switch_lines command (record c { inbox = rest })
