-- ===== src/Protocol.antt =====
-- The command numbers of msockets/src/Protocol.h that server and client send.
use networking_programming_p.Base.{ℕ}

abbrev pub close_session_with_user : ℕ
close_session_with_user = 1

abbrev pub open_session_with_user : ℕ
open_session_with_user = 2

abbrev pub exit : ℕ
exit = 3

abbrev pub send_msg_to_peer : ℕ
send_msg_to_peer = 4

abbrev pub session_refused : ℕ
session_refused = 5

abbrev pub session_established : ℕ
session_established = 6

abbrev pub login : ℕ
login = 7

abbrev pub signup : ℕ
signup = 8

abbrev pub open_chatroom : ℕ
open_chatroom = 9

abbrev pub close_chatroom : ℕ
close_chatroom = 10

abbrev pub join_chatroom : ℕ
join_chatroom = 11

abbrev pub leave_chatroom : ℕ
leave_chatroom = 12

abbrev pub get_all_users : ℕ
get_all_users = 13

abbrev pub enter_username : ℕ
enter_username = 14

abbrev pub enter_password : ℕ
enter_password = 15

abbrev pub confirm_user : ℕ
confirm_user = 16

abbrev pub login_denied : ℕ
login_denied = 17

abbrev pub username_taken : ℕ
username_taken = 18

abbrev pub bad_command : ℕ
bad_command = 19

abbrev pub enter_user_name : ℕ
enter_user_name = 21

abbrev pub incomimg_session : ℕ
incomimg_session = 22

abbrev pub open_session_error : ℕ
open_session_error = 23

abbrev pub close_session_error : ℕ
close_session_error = 24

abbrev pub enter_chatroom_name : ℕ
enter_chatroom_name = 25

abbrev pub create_chatroom_name_error : ℕ
create_chatroom_name_error = 26

abbrev pub chatroom_name_error : ℕ
chatroom_name_error = 27

abbrev pub close_chatroom_owner_error : ℕ
close_chatroom_owner_error = 28

abbrev pub open_connection_error : ℕ
open_connection_error = 29

abbrev pub session_ended : ℕ
session_ended = 30

abbrev pub new_user_to_chatroom : ℕ
new_user_to_chatroom = 31

abbrev pub user_has_left_chatroom : ℕ
user_has_left_chatroom = 32

abbrev pub open_session_error2 : ℕ
open_session_error2 = 33

abbrev pub connection_error : ℕ
connection_error = 34

abbrev pub chatroom_is_closing : ℕ
chatroom_is_closing = 35

abbrev pub bye_bye_msg : ℕ
bye_bye_msg = 36

abbrev pub get_all_chatrooms : ℕ
get_all_chatrooms = 37

abbrev pub get_chatroom_users : ℕ
get_chatroom_users = 38

abbrev pub leave_chatroom_error : ℕ
leave_chatroom_error = 39

abbrev pub chatroom_list : ℕ
chatroom_list = 40

abbrev pub target_ip_and_port : ℕ
target_ip_and_port = 41

abbrev pub login_or_signup : ℕ
login_or_signup = 42

abbrev pub users_list : ℕ
users_list = 43

abbrev pub chatrooms_list : ℕ
chatrooms_list = 44

abbrev pub chatroom_created : ℕ
chatroom_created = 45

abbrev pub chatroom_was_closed : ℕ
chatroom_was_closed = 46

abbrev pub chatroom_close_error : ℕ
chatroom_close_error = 47

abbrev pub chatroom_users_list : ℕ
chatroom_users_list = 48

abbrev pub all_users_list : ℕ
all_users_list = 49

abbrev pub get_all_connected_users : ℕ
get_all_connected_users = 50

abbrev pub close_connection : ℕ
close_connection = 51
