-- ===== src/ServerConsole/Tests.antt =====
-- A run of the server's console (ServerSide/src/Server.cpp, main).
use networking_programming_p.Base.{[], ◌∷◌, some, true, codes}
use networking_programming_p.Dispatcher.State.{new_user, new_chat_room}
use networking_programming_p.Login.{Server}
use networking_programming_p.ServerConsole.{Cli, Objects}
use networking_programming_p.Objects.{live, null}

-- A server with one user, ann.
abbrev server : Server
server = record {
  dispatcher = record {
    users = λ p. record new_user { socket = 1; name = codes "ann" };
    next_user = 1;
    rooms = λ p. new_chat_room;
    next_room = 0;
    users_map = (codes "ann", 0) ∷ [];
    chatrooms_map = [];
    in_session_with = [];
    users_vector = 1 ∷ [];
    all_users_infile_vector = codes "ann" ∷ [];
    status = true;
    inbox = λ s. [];
    sent = [];
    address = λ s. record { ip = codes "10.0.0.1"; port = 5000 };
  };
  peers = [];
  status = true;
  file = record { content = some (codes "ann pw\n"); writable = true };
}

-- Its objects before any round.
abbrev fresh : Objects
fresh = record { dispatcher = live; listener = null; sockets = null; listen_sock = live }

abbrev typing : Cli
typing = record {
  server = server;
  objects = fresh;
  is_listening = true;
  command = [];
  input = codes "lcu lr x";
  printed = [];
}
