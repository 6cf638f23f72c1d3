-- ===== src/Dispatcher/Tests.antt =====
-- Runs of the dispatcher (ServerSide/src/Dispatcher.cpp) with two connected users.
use networking_programming_p.Base.{
  Bool, ℕ, ◌+◌, ◌≡◌, refl, Str, List, [], ◌∷◌, ◌++◌, none, some, true, false, codes, if◌then◌else◌,
  arith, str_eq, ◌==◌, str_lt,
}
use networking_programming_p.Wire.{
  Arrival, chunk, msg_bytes, command_bytes, read_msg, recv, portion, c_string, to_size, ntohl,
  htonl, has_nul, until_nul, msg_body, msg_text,
}
use networking_programming_p.OrderedMap.{find, erase}
use networking_programming_p.Protocol.{session_ended, get_all_chatrooms}
use networking_programming_p.Listener.{selected}
use networking_programming_p.Dispatcher.State.{
  Pointer, Socket, User, ChatRoom, new_user, new_chat_room, World, update,
}
use networking_programming_p.Dispatcher.Monad.{M, ◌>>=◌, ◌>>◌, command_packets, deref, user_at}
use networking_programming_p.Dispatcher.Caller.{scan_users, current_user}
use networking_programming_p.Dispatcher.Sessions.{open_session, close_session}
use networking_programming_p.Dispatcher.Sessions.Open.{
  Asks, asked_of, opened, session_packets, open_session_lem, open_session-fault,
}
use networking_programming_p.Dispatcher.Sessions.OpenClose.{ArePair, close_session-open_session}
use networking_programming_p.Dispatcher.Starved.{IsIdle, run-starved}
use networking_programming_p.Dispatcher.Members.Laws.{remove_member-add_member_twice}
use networking_programming_p.Dispatcher.Members.{add_member, listed, remove_member, without}
use networking_programming_p.Dispatcher.Loop.{run, disconnect, exit_room, tell_closed, user_exit}
use networking_programming_p.Dispatcher.Consistency.{IsConsistent}
use networking_programming_p.Dispatcher.Stranded.{user_exit-user_exit_owner}

abbrev ann : Str
ann = codes "ann"

abbrev bob : Str
bob = codes "bob"

abbrev two_users : Pointer → User
two_users p =
    if p == 0
    then record new_user { socket = 1; name = ann }
    else record new_user { socket = 2; name = bob }

-- The sockets 1 and 2, where ann asks for a session.
abbrev asking : Str → Socket → List Arrival
asking peer s = if s == 1 then chunk (msg_bytes ann ++ msg_bytes peer) ∷ [] else []

abbrev world : Str → World
world peer = record {
  users = two_users;
  next_user = 2;
  rooms = λ p. new_chat_room;
  next_room = 0;
  users_map = (ann, 0) ∷ (bob, 1) ∷ [];
  chatrooms_map = [];
  in_session_with = [];
  users_vector = 1 ∷ 2 ∷ [];
  all_users_infile_vector = ann ∷ bob ∷ [];
  status = true;
  inbox = asking peer;
  sent = [];
  address = λ s. record { ip = codes "10.0.0.1"; port = 5000 + s };
}

asks : Asks (world bob) 0 0 ann bob []
unfolding msg_bytes htonl read_msg recv portion c_string to_size ntohl has_nul until_nul msg_body
    msg_text scan_users str_eq
asks = record { middle = chunk (msg_bytes bob) ∷ []; named = refl; asked = refl; found = refl }

stranger_request : Asks (world (codes "eve")) 0 0 ann (codes "eve") []
unfolding msg_bytes htonl read_msg recv portion c_string to_size ntohl has_nul until_nul msg_body
    msg_text scan_users str_eq
stranger_request = record {
  middle = chunk (msg_bytes (codes "eve")) ∷ [];
  named = refl;
  asked = refl;
  found = refl;
}

pair : ArePair (world bob) 0 1
unfolding find str_eq
pair = record {
  apart = refl;
  caller_known = refl;
  target_known = refl;
  caller_free = tt;
  target_free = tt;
}

close_session-open_session_example :
    (v : World) × ((open_session 0 >> close_session 1) (world bob) ≡ some (tt, v))
    × ((v.users 0).connection_status ≡ false)
    × ((v.users 1).connection_status ≡ false)
    × (v.in_session_with ≡ [])
    × (v.sent
        ≡ session_packets 1 (two_users 0) (two_users 1) (world bob)
          ++ command_packets 1 session_ended)
unfolding scan_users str_eq
close_session-open_session_example =
    close_session-open_session (world bob) 0 0 1 1 ann [] false asks pair refl refl refl refl

open_session_lem_example :
    open_session 0 (world bob) ≡ some (tt, opened 1 0 1 (asked_of 0 [] (world bob)))
unfolding find str_eq
open_session_lem_example = open_session_lem (world bob) 0 0 1 ann bob [] asks refl refl

open_session-fault_example : open_session 0 (world (codes "eve")) ≡ none
unfolding find str_eq
open_session-fault_example =
    open_session-fault (world (codes "eve")) 0 0 ann (codes "eve") [] stranger_request refl

-- The world in which ann has a session with bob.
abbrev talking : World
talking = record (world bob) { in_session_with = (ann, bob) ∷ [] }

world-IsConsistent : IsConsistent (world bob)
unfolding str_lt str_eq
world-IsConsistent = record {
  users = ((refl, omega arith), ((refl, omega arith), tt));
  rooms = tt;
  users_ordered = ((refl, tt), (tt, tt));
  rooms_ordered = tt;
  sessions_ordered = tt;
}

-- The world that an action leads to, or the one that it started from.
abbrev outcome : M (Unit {0}) → World → World
outcome m w = elim (m w) [ none ↦ w | some (a, v) ↦ v ]

-- ann sends one command.
abbrev sending : ℕ → Socket → List Arrival
sending command s = if s == 1 then chunk (command_bytes command) ∷ [] else []

abbrev listing : World
listing = record (world bob) { inbox = sending get_all_chatrooms }

listing-IsConsistent : IsConsistent listing
unfolding str_lt str_eq
listing-IsConsistent = record {
  users = ((refl, omega arith), ((refl, omega arith), tt));
  rooms = tt;
  users_ordered = ((refl, tt), (tt, tt));
  rooms_ordered = tt;
  sessions_ordered = tt;
}

-- Only ann's socket is ready.
abbrev one : Socket → Bool
one s = s == 1

-- ann owns a room in which bob is a member.
abbrev members : Pointer → User
members p = record (two_users p) { connection_status = true; connected_to_chat_room = some 0 }

abbrev den : World
den = record (world bob) {
  users = members;
  rooms = λ p. record { name = codes "den"; owner = ann; users = ann ∷ bob ∷ [] };
  next_room = 1;
  chatrooms_map = (codes "den", 0) ∷ [];
}

user_exit-user_exit_owner_example : user_exit 1 (outcome (user_exit 0) den) ≡ none
unfolding user_exit deref current_user scan_users disconnect exit_room tell_closed remove_member
    without user_at erase find update ◌>>=◌ listed str_eq
user_exit-user_exit_owner_example =
    user_exit-user_exit_owner den (outcome (user_exit 0) den) 0 0 0 1 1 refl
      (record { connected = refl; room = refl }) refl refl refl refl
      (record { connected = refl; room = refl }) refl

abbrev den_room : ChatRoom
den_room = record { name = codes "den"; owner = ann; users = ann ∷ [] }

remove_member-add_member_twice_example :
    remove_member bob (add_member bob (add_member bob den_room)) ≡ add_member bob den_room
unfolding listed str_eq
remove_member-add_member_twice_example = remove_member-add_member_twice bob den_room refl refl refl

-- The client on socket 1 is gone, and bob's request waits.
abbrev waiting : Socket → List Arrival
waiting s = if s == 2 then chunk (command_bytes get_all_chatrooms) ∷ [] else []

abbrev gone : World
gone = record (world bob) { inbox = waiting }

run-starved_example :
    (v : World) × (run (selected one ∷ selected one ∷ []) gone ≡ some (tt, v)) × IsIdle gone v
run-starved_example =
    run-starved 1 (2 ∷ []) (selected one ∷ selected one ∷ []) gone refl refl refl refl
      ((one, refl, refl), ((one, refl, refl), tt))
