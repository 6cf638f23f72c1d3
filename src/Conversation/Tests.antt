-- ===== src/Conversation/Tests.antt =====
-- ann logs in, and asks for a session with bob (ClientSide/src/Client.cpp and ServerSide/src).
use networking_programming_p.Base.{
  ℕ, ◌≡◌, refl, Str, List, [], ◌∷◌, ◌++◌, some, true, codes, arith, ◌==◌, str_eq, str_lt,
  if◌then◌else◌, false,
}
use networking_programming_p.Wire.{chunk, has_nul}
use networking_programming_p.Address.{SockAddr, dest_ip_and_port, decimal, decimal_fuel}
use networking_programming_p.OrderedMap.{find, contains}
use networking_programming_p.Dispatcher.State.{
  Pointer, User, Packet, World, new_user, new_chat_room,
}
use networking_programming_p.Dispatcher.Caller.{scan_users}
use networking_programming_p.Dispatcher.Loop
use networking_programming_p.Login.{Server, login, serve}
use networking_programming_p.Login.File.{lines, lines_of, has_line, has_account, account_line}
use networking_programming_p.Client.{Client, new_client}
use networking_programming_p.Client.Requests.{open_session, send_login, close_session}
use networking_programming_p.Client.Run.{round}
use networking_programming_p.Client.Delivered.{IsReadable, IsPrintable}
use networking_programming_p.Client.Sessions.{in_session_at}
use networking_programming_p.Conversation.{news, hearing, CanOpen, round-open_session}
use networking_programming_p.Client.Run.{no_session}
use networking_programming_p.OrderedMap.{erase}
use networking_programming_p.Dispatcher.Sessions.{Found, scan_sessions}
use networking_programming_p.Conversation.Ending.{CanEnd, round-end_session}
use networking_programming_p.Conversation.Entry.{logged_in_as, CanLogIn, serve-send_login}

abbrev pub ann : Str
ann = codes "ann"

abbrev pub bob : Str
bob = codes "bob"

abbrev pub home : SockAddr
home = record { ip = codes "10.0.0.1"; port = 8080 }

pub ann-IsReadable : IsReadable ann
unfolding has_nul
ann-IsReadable = (omega arith, refl)

pub bob-IsReadable : IsReadable bob
unfolding has_nul
bob-IsReadable = (omega arith, refl)

pub home-IsPrintable : IsPrintable home
unfolding has_nul dest_ip_and_port decimal decimal_fuel
home-IsPrintable = (
  (refl, (refl, (refl, (refl, (refl, (refl, (refl, (refl, tt)))))))),
  omega arith,
  (omega arith, refl),
)

abbrev pub two_users : Pointer → User
two_users p =
    if p == 0
    then record new_user { socket = 1; name = ann }
    else record new_user { socket = 2; name = bob }

-- A dispatcher that has a stream of ann's at the socket 1.
abbrev pub world : List ℕ → List (Str × Pointer) → World
world bytes users_map = record {
  users = two_users;
  next_user = 2;
  rooms = λ p. new_chat_room;
  next_room = 0;
  users_map = users_map;
  chatrooms_map = [];
  in_session_with = [];
  users_vector = 1 ∷ 2 ∷ [];
  all_users_infile_vector = ann ∷ bob ∷ [];
  status = true;
  inbox = λ s. if s == 1 then chunk (bytes ++ []) ∷ [] else [];
  sent = [];
  address = λ s. home;
}

abbrev asking : World
asking = world (news new_client (open_session ann bob new_client)) ((ann, 0) ∷ (bob, 1) ∷ [])

can_open : CanOpen asking 1 0 1 ann bob
unfolding scan_users find str_eq str_lt
can_open = record {
  consistent = record {
    users = ((refl, omega arith), ((refl, omega arith), tt));
    rooms = tt;
    users_ordered = ((refl, tt), (tt, tt));
    rooms_ordered = tt;
    sessions_ordered = tt;
  };
  connected = refl;
  caller_is = refl;
  target_is = refl;
  caller_free = refl;
  target_free = refl;
  other_name = refl;
  other_sockets = refl;
  other_sockets_back = refl;
  user_name_readable = ann-IsReadable;
  caller_readable = ann-IsReadable;
  target_readable = bob-IsReadable;
  caller_printable = home-IsPrintable;
  target_printable = home-IsPrintable;
}

round-open_session_example :
    (u : World) × (packets : List Packet) × (Loop.round 1 asking ≡ some (tt, u))
    × (u.sent ≡ packets)
    × (round (hearing 1 packets new_client)
        ≡ some (in_session_at bob home [] (hearing 1 packets new_client)))
    × (round (hearing 2 packets new_client)
        ≡ some (in_session_at ann home [] (hearing 2 packets new_client)))
round-open_session_example =
    round-open_session asking 1 0 1 ann bob new_client new_client new_client [] [] can_open refl

-- A server with an account of ann's, and her login at the socket 1.
abbrev entering : Server
entering = record {
  dispatcher = world (news new_client (send_login ann (codes "pw") new_client)) ((bob, 1) ∷ []);
  peers = 1 ∷ [];
  status = true;
  file = record { content = some (codes "ann pw\n"); writable = true };
}

can_log_in : CanLogIn entering 1 ann (codes "pw")
unfolding login has_account has_line lines_of lines account_line str_eq contains has_nul
can_log_in = record {
  connected = refl;
  accepted = refl;
  name_readable = ann-IsReadable;
  pass_readable = (omega arith, refl);
  printable = home-IsPrintable;
}

serve-send_login_example :
    (t : Server) × (packets : List Packet) × (serve 1 entering ≡ some t)
    × (t.dispatcher.sent ≡ packets)
    × (find ann t.dispatcher.users_map ≡ some 2)
    × ((t.dispatcher.users 2).socket ≡ 1)
    × (round (hearing 1 packets new_client)
        ≡ some (logged_in_as ann home (record new_client { inbox = [] })))
serve-send_login_example =
    serve-send_login entering 1 ann (codes "pw") new_client new_client [] [] can_log_in refl

-- A dispatcher where ann has a session with bob, and bob asks to end it at the socket 2.
abbrev bob_client : Client
bob_client = record new_client { client_name = bob; is_in_session = true }

abbrev talking : World
talking = record asking {
  in_session_with = (ann, bob) ∷ [];
  inbox = λ s. if s == 2 then chunk (news bob_client (close_session bob_client) ++ []) ∷ [] else [];
}

abbrev with_ann : Found
with_ann = record { partner = ann; first = false; second = true }

can_end : CanEnd talking 2 1 0 1 with_ann
unfolding scan_users scan_sessions find str_eq str_lt
can_end = record {
  consistent = record {
    users = ((refl, omega arith), ((refl, omega arith), tt));
    rooms = tt;
    users_ordered = ((refl, tt), (tt, tt));
    rooms_ordered = tt;
    sessions_ordered = (tt, tt);
  };
  connected = refl;
  caller_is = refl;
  session_is = refl;
  has_session = refl;
  partner_is = refl;
  self_is = refl;
}

round-end_session_example :
    (v : World) × (packets : List Packet) × (Loop.round 2 talking ≡ some (tt, v))
    × (v.sent ≡ packets)
    × (v.in_session_with ≡ [])
    × (round (hearing 1 packets new_client) ≡ some (no_session (record new_client { inbox = [] })))
unfolding erase str_eq
round-end_session_example =
    round-end_session talking 2 1 0 1 with_ann bob_client new_client [] [] can_end refl refl refl
