-- ===== src/Client/Handlers.antt =====
-- What the client does with each message of the server (ClientSide/src/Client.cpp, the methods
-- that `run` calls).
use networking_programming_p.Base.{
  ℕ, zero, suc, ◌^◌, Str, List, [], ◌∷◌, ◌++◌, Option, none, some, true, false, ltb, str_eq,
  if◌then◌else◌,
}
use networking_programming_p.Wire.{read_command}
use networking_programming_p.Address.{parse_address}
use networking_programming_p.Client.{Partner, Client, with_msg}

-- A count that readCommand gave, in `i < count`: a negative int counts nothing.
unfoldable pub list_size : ℕ → ℕ
list_size n = if ltb n (2 ^ 31) then n else 0

-- readCommand on server_sock for the size of a list.
unfoldable pub with_count : (ℕ → Client → Option Client) → Client → Option Client
with_count k c =
    let (count, rest) = read_command c.inbox in k (list_size count) (record c { inbox = rest })

-- The loops that print one name after the other.
unfoldable pub skip_names : ℕ → Client → Option Client
unfolding with_msg
skip_names zero c = some c
skip_names (suc n) c = with_msg (λ name c'. skip_names n c') c

-- Client::gotChatroomUsersNames, Client::gotUsersList, Client::gotAllUsers and
-- Client::gotChatroomsList, which differ in what they print.
unfoldable pub got_names : Client → Option Client
unfolding with_count
got_names c = with_count skip_names c

-- A partner of that name at the address that the text stands for.
abbrev pub partner_at : Str → Str → Partner
partner_at name text =
    let a = parse_address text in record { name = name; ip = a.ip; port = a.port }

-- The end of a round of gotChatroomUsersList: the partner is added, and both flags are set.
unfoldable pub add_partner : Str → Str → Client → Client
add_partner name ip_and_port c = record c {
  is_in_session = true;
  is_in_chat_room = true;
  chatroom_partners = c.chatroom_partners ++ (partner_at name ip_and_port ∷ []);
}

-- The loop of gotChatroomUsersList.
unfoldable pub got_partners : ℕ → Client → Option Client
unfolding with_msg add_partner
got_partners zero c = some c
got_partners (suc n) c =
    with_msg (λ name. with_msg (λ ip_and_port c'. got_partners n (add_partner name ip_and_port c')))
      c

-- Client::gotChatroomUsersList
unfoldable pub got_chatroom_users_list : Client → Option Client
unfolding with_count
got_chatroom_users_list c = with_count got_partners c

-- gotIpAndPort and gotIncomingSession after their reads.
unfoldable pub put_partner : Str → Str → Client → Option Client
put_partner name ip_and_port c =
    some (record c { session_partner = partner_at name ip_and_port; is_in_session = true })

-- Client::gotIpAndPort and Client::gotIncomingSession, which differ in what they print.
unfoldable pub got_session_partner : Client → Option Client
unfolding with_msg put_partner
got_session_partner c = with_msg (λ name. with_msg (put_partner name)) c

-- Client::loggedIn: the UDP socket is bound to the port that the server sees.
unfoldable pub logged_in : Client → Option Client
unfolding with_msg
logged_in c =
    with_msg
      (λ name. with_msg (λ ip_and_port c'. some (record c' {
        client_name = name;
        is_logged_in = true;
        udp_sock = some (parse_address ip_and_port).port;
      })))
      c

-- The search and the erase of userHasLeftChatroom: when no partner has the name, the erased
-- position is end(), which is undefined.
unfoldable pub erase_partner : Str → List Partner → Option (List Partner)
erase_partner name [] = none
erase_partner name (p ∷ ps) =
    let rest = erase_partner name ps in
    if str_eq p.name name then some ps else elim rest [ none ↦ none | some qs ↦ some (p ∷ qs) ]

-- userHasLeftChatroom after its read.
unfoldable pub drop_user : Str → Client → Option Client
drop_user name c =
    if str_eq name c.client_name
    then some (record c {
      is_in_session = false;
      is_in_chat_room = false;
      is_room_owner = false;
      chatroom_partners = [];
      chat_name = [];
    })
    else elim (erase_partner name c.chatroom_partners) [
      | none ↦ none
      | some ps ↦ some (record c { chatroom_partners = ps })
    ]

-- Client::userHasLeftChatroom
unfoldable pub user_has_left_chatroom : Client → Option Client
unfolding with_msg drop_user
user_has_left_chatroom c = with_msg drop_user c

-- Client::chatroomWasClosed
unfoldable pub chatroom_was_closed : Client → Client
chatroom_was_closed c =
    if c.is_room_owner
    then record c {
      is_room_owner = false;
      is_in_chat_room = false;
      chatroom_partners = [];
      chat_name = [];
    }
    else record c { is_in_chat_room = false; chatroom_partners = []; chat_name = [] }

-- userHasJoinedChatroom after its reads.
unfoldable pub put_newcomer : Str → Str → Client → Option Client
put_newcomer name ip_and_port c =
    some
      (record c { chatroom_partners = c.chatroom_partners ++ (partner_at name ip_and_port ∷ []) })

-- Client::userHasJoinedChatroom
unfoldable pub user_has_joined_chatroom : Client → Option Client
unfolding with_msg put_newcomer
user_has_joined_chatroom c = with_msg (λ name. with_msg (put_newcomer name)) c
