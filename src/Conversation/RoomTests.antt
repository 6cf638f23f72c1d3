-- ===== src/Conversation/RoomTests.antt =====
-- bob enters ann's room (ClientSide/src/Client.cpp and ServerSide/src/Dispatcher.cpp).
use networking_programming_p.Base.{
  ◌≡◌, refl, List, [], ◌∷◌, ◌++◌, some, codes, arith, ◌==◌, str_eq, str_lt, if◌then◌else◌,
}
use networking_programming_p.Wire.{chunk, has_nul}
use networking_programming_p.OrderedMap.{find}
use networking_programming_p.Dispatcher.State.{Packet, World}
use networking_programming_p.Dispatcher.Caller.{scan_users}
use networking_programming_p.Dispatcher.Loop
use networking_programming_p.Client.{new_client}
use networking_programming_p.Client.Requests.{create_chat_room}
use networking_programming_p.Client.Run.{round}
use networking_programming_p.Conversation.{news, hearing}
use networking_programming_p.Client.Rooms.{partner_of, in_room_with}
use networking_programming_p.Client.Printed.{round_lines}
use networking_programming_p.Client.Printed.Peers.{shown}
use networking_programming_p.Conversation.Entering.Printed.{round_lines-create_chat_room}
use networking_programming_p.Conversation.Entering.{CanEnter, round-create_chat_room}
use networking_programming_p.Conversation.Tests.{
  ann, bob, home, world, ann-IsReadable, bob-IsReadable, home-IsPrintable,
}

-- A dispatcher where ann has the room "den", and bob asks to enter it at the socket 2.
abbrev visiting : World
visiting = record (world [] ((ann, 0) ∷ (bob, 1) ∷ [])) {
  rooms = λ p. record { owner = ann; name = codes "den"; users = ann ∷ [] };
  next_room = 1;
  chatrooms_map = (codes "den", 0) ∷ [];
  inbox = λ s.
      if s == 2
      then chunk (news new_client (create_chat_room (codes "den") new_client) ++ []) ∷ []
      else [];
}

can_enter : CanEnter visiting 2 1 0 (codes "den") ((ann, 0) ∷ [])
unfolding scan_users find str_eq str_lt has_nul
can_enter = record {
  consistent = record {
    users = ((refl, omega arith), ((refl, omega arith), tt));
    rooms = ((refl, omega arith), tt);
    users_ordered = ((refl, tt), (tt, tt));
    rooms_ordered = (tt, tt);
    sessions_ordered = tt;
  };
  connected = refl;
  caller_is = refl;
  room_is = refl;
  members_are = refl;
  members_connected = (refl, tt);
  members_elsewhere = (refl, tt);
  members_readable = ((ann-IsReadable, home-IsPrintable), tt);
  few = omega arith;
  room_readable = (omega arith, refl);
  caller_readable = bob-IsReadable;
  caller_printable = home-IsPrintable;
}

round-create_chat_room_example :
    (v : World) × (packets : List Packet) × (Loop.round 2 visiting ≡ some (tt, v))
    × (v.sent ≡ packets)
    × (round (hearing 2 packets new_client)
        ≡ some (in_room_with (partner_of ann home ∷ []) (record new_client { inbox = [] })))
    × (round (hearing 1 packets new_client)
        ≡ some (record new_client { inbox = []; chatroom_partners = partner_of bob home ∷ [] }))
round-create_chat_room_example =
    round-create_chat_room visiting 2 1 0 0 (codes "den") ann [] [] new_client new_client new_client
      [] [] can_enter refl refl tt tt refl

round_lines-create_chat_room_example :
    (v : World) × (packets : List Packet) × (Loop.round 2 visiting ≡ some (tt, v))
    × (v.sent ≡ packets)
    × (round_lines (hearing 2 packets new_client)
        ≡ some ((codes "Chatroom partner: " ++ shown ann home) ∷ []))
    × (round_lines (hearing 1 packets new_client)
        ≡ some ((codes "New user: " ++ shown bob home) ∷ []))
round_lines-create_chat_room_example =
    round_lines-create_chat_room visiting 2 1 0 0 (codes "den") ann [] [] new_client new_client
      new_client [] [] can_enter refl refl tt tt refl
