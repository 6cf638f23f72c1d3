-- ===== src/Client/Requests.antt =====
-- What the client asks of the server, and what it sends to its partners
-- (ClientSide/src/Client.cpp, the methods that the console calls).
use networking_programming_p.Base.{
  ℕ, Str, List, [], ◌∷◌, ◌++◌, Option, none, some, Bool, true, false, if◌then◌else◌,
}
use networking_programming_p.Wire.{Arrival}
use networking_programming_p.Protocol.{
  close_session_with_user, open_session_with_user, exit, login, signup, open_chatroom,
  leave_chatroom, get_all_users, get_all_chatrooms, get_chatroom_users, get_all_connected_users,
}
use networking_programming_p.Client.{Partner, clean, Client, write_command, write_msg}

-- Client::connectToServer: whether the new TCPSocket has a descriptor, which is what it tests, and
-- what then arrives, are the network's; where the connection was refused nothing arrives. The
-- socket itself is in Sockets, the thread that it starts is Run.run.
unfoldable pub connect_to_server : Bool → List Arrival → Client → Bool × Client
connect_to_server has_descriptor arrivals c =
    if has_descriptor
    then (true, record c { connection_status = true; inbox = arrivals; is_closed = false })
    else (false, record c { inbox = []; is_closed = true })

-- Client::getUsers
unfoldable pub get_users : Client → Client
get_users c = write_command get_all_users c

-- Client::login
unfoldable pub send_login : Str → Str → Client → Client
send_login name pass c = write_msg pass (write_msg name (write_command login c))

-- Client::signup
unfoldable pub send_signup : Str → Str → Client → Client
send_signup name pass c = write_msg pass (write_msg name (write_command signup c))

-- Client::disconnectFromServer; `chatroom_partners.empty()` only asks whether it is empty.
unfoldable pub disconnect_from_server : Client → Client
disconnect_from_server c =
    let quiet = record c {
      connection_status = false;
      is_in_session = false;
      is_in_chat_room = false;
      is_connected_to_server = false;
      is_logged_in = false;
      session_partner = clean;
    } in
    record (write_command exit quiet) { is_closed = true }

-- Client::listAllUsers
unfoldable pub list_all_users : Client → Client
list_all_users c = write_command get_all_connected_users c

-- Client::listAllChatrooms
unfoldable pub list_all_chatrooms : Client → Client
list_all_chatrooms c = write_command get_all_chatrooms c

-- Client::listChatroomUsers
unfoldable pub list_chatroom_users : Str → Client → Client
list_chatroom_users room_name c = write_msg room_name (write_command get_chatroom_users c)

-- Client::openSession
unfoldable pub open_session : Str → Str → Client → Client
open_session user_name peer_usr c =
    write_msg peer_usr (write_msg user_name (write_command open_session_with_user c))

-- Client::closeSession
unfoldable pub close_session : Client → Client
close_session c =
    if c.is_in_session
    then if c.is_in_chat_room
      then write_command leave_chatroom c
      else record (write_command close_session_with_user c) { is_in_session = false }
    else c

-- Client::CreateChatRoom
unfoldable pub create_chat_room : Str → Client → Client
create_chat_room room_name c = write_msg room_name (write_command open_chatroom c)

-- udp_sock->sendTo, where udp_sock may be NULL.
unfoldable pub send_to : Str → Str → ℕ → Client → Option Client
send_to text ip port c = elim c.udp_sock [
  | none ↦ none
  | some own ↦ some (record c {
    sent_datagrams = c.sent_datagrams ++ (record { text = text; ip = ip; port = port } ∷ []);
  })
]

-- The loop of sendMsgToSession over the chat room's partners.
unfoldable pub send_to_all : Str → List Partner → Client → Option Client
send_to_all text [] c = some c
send_to_all text (p ∷ ps) c = elim (send_to text p.ip p.port c) [
  | none ↦ none
  | some c' ↦ send_to_all text ps c'
]

-- Client::sendMsgToSession
unfoldable pub send_msg_to_session : Str → Client → Option Client
send_msg_to_session msg c =
    if c.is_in_session
    then if c.is_in_chat_room
      then send_to_all (b'[' ∷ (c.client_name ++ (b']' ∷ b':' ∷ msg))) c.chatroom_partners c
      else send_to (b'[' ∷ (c.client_name ++ (b']' ∷ msg))) c.session_partner.ip
          c.session_partner.port c
    else some c

-- Client::closeConnection
unfoldable pub close_connection : Client → Client
close_connection c = record c {
  connection_status = false;
  is_in_session = false;
  is_in_chat_room = false;
  is_connected_to_server = false;
  is_logged_in = false;
  session_partner = clean;
  is_closed = true;
}

-- Client::close
unfoldable pub close : Client → Client
close c = if c.is_connected_to_server then disconnect_from_server c else c

-- Client::getName
unfoldable pub get_name : Client → Str
get_name c = if c.is_in_chat_room then c.chat_name else c.session_partner.name
