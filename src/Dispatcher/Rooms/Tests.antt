-- ===== src/Dispatcher/Rooms/Tests.antt =====
-- A room that ann owns, that bob enters and that each of them leaves
-- (ServerSide/src/Dispatcher.cpp, join_chatroom and leave_chatroom).
use networking_programming_p.Base.{
  ◌+◌, ◌≡◌, refl, Str, List, [], ◌∷◌, ◌++◌, some, true, codes, if◌then◌else◌, str_eq, str_lt, ◌==◌,
}
use networking_programming_p.Wire.{
  chunk, msg_bytes, read_msg, recv, portion, c_string, to_size, ntohl, htonl, has_nul, until_nul,
  msg_body, msg_text,
}
use networking_programming_p.Address.{dest_ip_and_port}
use networking_programming_p.OrderedMap.{find}
use networking_programming_p.Dispatcher.State.{Pointer, User, new_user, World}
use networking_programming_p.Dispatcher.Monad.{◌>>◌}
use networking_programming_p.Dispatcher.Caller.{scan_users}
use networking_programming_p.Dispatcher.Steps.{consumed}
use networking_programming_p.Dispatcher.Members.{listed}
use networking_programming_p.Dispatcher.Rooms.{join_chatroom, leave_chatroom}
use networking_programming_p.Dispatcher.Rooms.Join.{
  entered, announce_packets, room_packets, join_chatroom_lem,
}
use networking_programming_p.Dispatcher.Rooms.Leave.{closed, left_packets, leave_chatroom_lem}
use networking_programming_p.Dispatcher.Loop.{user_exit}
use networking_programming_p.Dispatcher.Sessions.{scan_sessions}
use networking_programming_p.Dispatcher.Exit.{room_closed, gone, user_exit_lem}
use networking_programming_p.Dispatcher.Rooms.JoinLeave.{IsGuest, leave_chatroom-join_chatroom}

abbrev ann : Str
ann = codes "ann"

abbrev bob : Str
bob = codes "bob"

abbrev den : Str
den = codes "den"

abbrev owner_and_guest : Pointer → User
owner_and_guest p =
    if p == 0
    then record new_user {
      socket = 1;
      name = ann;
      connection_status = true;
      connected_to_chat_room = some 0;
    }
    else record new_user { socket = 2; name = bob }

-- The room of ann, where bob asks to enter.
abbrev world : World
world = record {
  users = owner_and_guest;
  next_user = 2;
  rooms = λ p. record { owner = ann; name = den; users = ann ∷ [] };
  next_room = 1;
  users_map = (ann, 0) ∷ (bob, 1) ∷ [];
  chatrooms_map = (den, 0) ∷ [];
  in_session_with = [];
  users_vector = 1 ∷ 2 ∷ [];
  all_users_infile_vector = ann ∷ bob ∷ [];
  status = true;
  inbox = λ s. if s == 2 then chunk (msg_bytes den) ∷ [] else [];
  sent = [];
  address = λ s. record { ip = codes "10.0.0.1"; port = 5000 + s };
}

abbrev members : List (Str × Pointer)
members = (ann, 0) ∷ []

join_chatroom_lem_example :
    join_chatroom 1 world ≡ some (tt, entered 2 1 0 members (consumed 2 [] world))
unfolding msg_bytes htonl read_msg recv portion c_string to_size ntohl has_nul until_nul msg_body
    msg_text scan_users str_eq find
join_chatroom_lem_example = join_chatroom_lem world 1 1 den [] members refl refl (refl, (refl, tt))

leave_chatroom_lem_example : leave_chatroom 0 world ≡ some (tt, closed 0 0 members world)
unfolding scan_users str_eq find
leave_chatroom_lem_example = leave_chatroom_lem world 0 0 members refl (refl, (refl, tt))

guest : IsGuest world 1 0 members
unfolding str_eq str_lt find listed
guest = record {
  known = refl;
  ordered = ((refl, tt), (tt, tt));
  members_are = refl;
  connected = (refl, tt);
  not_owner = refl;
  not_named = refl;
  not_listed = refl;
}

leave_chatroom-join_chatroom_example :
    (v : World) × ((join_chatroom 1 >> leave_chatroom 1) world ≡ some (tt, v))
    × (v.rooms 0 ≡ world.rooms 0)
    × (v.users_map ≡ world.users_map)
    × (v.chatrooms_map ≡ world.chatrooms_map)
    × (v.users 1 ≡ record new_user { socket = 2; name = bob })
    × (v.sent
        ≡ (announce_packets bob (dest_ip_and_port (world.address 2)) world.users members
            ++ room_packets 2 world members)
          ++ left_packets bob world.users (members ++ ((bob, 1) ∷ [])))
unfolding msg_bytes htonl read_msg recv portion c_string to_size ntohl has_nul until_nul msg_body
    msg_text scan_users str_eq find
leave_chatroom-join_chatroom_example =
    leave_chatroom-join_chatroom world 1 1 1 0 den [] members refl refl refl refl guest

-- ann exits, and her room with her.
user_exit_lem_example : user_exit 0 world ≡ some (tt, gone 0 (room_closed 0 members world))
unfolding scan_users str_eq find scan_sessions
user_exit_lem_example =
    user_exit_lem world 0 0 0 0 members refl refl (λ h. cc) (λ h. cc) (refl, (refl, tt))
