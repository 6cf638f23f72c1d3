-- ===== src/Login/Start.antt =====
-- The server as it starts (the constructors in ServerSide/src/Dispatcher.cpp and
-- ServerSide/src/LoginAndSignUp.cpp), and where its threads take it from there.
use networking_programming_p.Base.{Str, List, [], false}
use networking_programming_p.Wire.{Arrival}
use networking_programming_p.Address.{SockAddr}
use networking_programming_p.Dispatcher.State.{Socket, World, new_user, new_chat_room}
use networking_programming_p.Dispatcher.Consistency.{IsConsistent}
use networking_programming_p.Login.{Server}
use networking_programming_p.Login.File.{UsersFile, get_all_users}
use networking_programming_p.Login.Interleaving.{Steps, Steps-IsConsistent}

-- Dispatcher::Dispatcher, with what will arrive on each socket, and the address of each.
abbrev pub new_dispatcher : List Str → (Socket → List Arrival) → (Socket → SockAddr) → World
new_dispatcher names inbox address = record {
  users = λ p. new_user;
  next_user = 0;
  rooms = λ p. new_chat_room;
  next_room = 0;
  users_map = [];
  chatrooms_map = [];
  in_session_with = [];
  users_vector = [];
  all_users_infile_vector = names;
  status = false;
  inbox = inbox;
  sent = [];
  address = address;
}

-- LoginAndSignUp::LoginAndSignUp, over the file users.txt.
unfoldable pub new_login : UsersFile → (Socket → List Arrival) → (Socket → SockAddr) → Server
new_login file inbox address = record {
  dispatcher = new_dispatcher (get_all_users file) inbox address;
  peers = [];
  status = false;
  file = file;
}

-- Whatever the file of accounts has and whatever arrives on the sockets, in every state that the
-- server can get to from its start by new peers and rounds of its two threads, in any order and
-- without undefined behaviour, every entry of the dispatcher's maps stands under the name of its
-- object, and the maps are ordered.
pub Steps-new_login :
    (file : UsersFile) (inbox : Socket → List Arrival) (address : Socket → SockAddr) (t : Server)
    → Steps (new_login file inbox address) t
    → IsConsistent t.dispatcher
unfolding new_login
Steps-new_login file inbox address t steps =
    Steps-IsConsistent (new_login file inbox address) t steps (record {
      users = tt;
      rooms = tt;
      users_ordered = tt;
      rooms_ordered = tt;
      sessions_ordered = tt;
    })
