-- ===== src/Login/Tests.antt =====
-- Logins and signups with a file of one account.
use networking_programming_p.Base.{
  ◌≡◌, refl, Str, List, [], ◌∷◌, ◌++◌, Option, none, some, true, false, codes, str_eq, ◌==◌,
  if◌then◌else◌,
}
use networking_programming_p.Wire.{
  Arrival, chunk, msg_bytes, htonl, read_msg, recv, portion, c_string, to_size, ntohl, has_nul,
  until_nul, msg_body, msg_text, read_command, command_bytes,
}
use networking_programming_p.OrderedMap.{find, contains}
use networking_programming_p.Dispatcher.State.{Socket, new_user, new_chat_room}
use networking_programming_p.Dispatcher.Members.{listed}
use networking_programming_p.Protocol.{login as login_command}
use networking_programming_p.Dispatcher.State.{update}
use networking_programming_p.Dispatcher.Monad.{next_command, read, ◌>>=◌, allocate_user}
use networking_programming_p.Dispatcher.Caller.{add_user}
use networking_programming_p.Dispatcher.Sessions.{address_of}
use networking_programming_p.Dispatcher.Consistency.{IsConsistent}
use networking_programming_p.Login.Start.{new_login, Steps-new_login}
use networking_programming_p.Login.Interleaving.{accepted, step, stop, served}
use networking_programming_p.Login.File.{
  UsersFile, lines, lines_of, get_all_users, account_line, has_line, has_account, is_taken,
  append_account,
}
use networking_programming_p.Login.Accounts.{
  has_space, IsWellFormed, is_taken-listed, append_account_lem, is_taken_spoiled,
}
use networking_programming_p.Login.{
  Server, add_peer, check_user, login, drop_peer, serve_login, serve, serve_command, on_world,
  credentials, admit, confirm,
}
use networking_programming_p.Login.Entry.{
  Submits, heard, admitted, serve_login_lem, serve_login_once,
}

-- The file of the account ann pw.
abbrev one : UsersFile
one = record { content = some (codes "ann pw\n"); writable = true }

one-IsWellFormed : IsWellFormed one
unfolding lines lines_of has_space
one-IsWellFormed = record { terminated = refl; spaced = (refl, tt) }

is_taken-listed_example : is_taken (codes "eve") one ≡ listed (codes "eve") (get_all_users one)
is_taken-listed_example = is_taken-listed (codes "eve") one one-IsWellFormed

append_account_lem_example :
    (has_account (codes "eve") (codes "s") (append_account (codes "eve") (codes "s") one) ≡ true)
    × (is_taken (codes "eve") (append_account (codes "eve") (codes "s") one) ≡ true)
    × (get_all_users (append_account (codes "eve") (codes "s") one)
        ≡ get_all_users one ++ (codes "eve" ∷ []))
    × IsWellFormed (append_account (codes "eve") (codes "s") one)
append_account_lem_example =
    append_account_lem (codes "eve") (codes "s") one one-IsWellFormed refl
      (refl, (refl, (refl, tt))) (refl, (refl, (refl, tt))) (refl, tt)

-- A file whose first line has no space.
abbrev spoiled : UsersFile
spoiled = record { content = some (codes "x\nann pw\n"); writable = true }

is_taken_spoiled_example :
    (is_taken (codes "ann") spoiled ≡ false) × (listed (codes "ann") (get_all_users spoiled) ≡ true)
unfolding lines lines_of has_space account_line
is_taken_spoiled_example =
    is_taken_spoiled b'x' [] (codes "ann") (codes "pw") spoiled refl refl (refl, (refl, (refl, tt)))

-- The peer on socket 3 submits a name and a password.
abbrev submitting : Str → Socket → List Arrival
submitting pass s = if s == 3 then chunk (msg_bytes (codes "ann") ++ msg_bytes pass) ∷ [] else []

abbrev server : Str → Server
server pass = record {
  dispatcher = record {
    users = λ p. new_user;
    next_user = 0;
    rooms = λ p. new_chat_room;
    next_room = 0;
    users_map = [];
    chatrooms_map = [];
    in_session_with = [];
    users_vector = [];
    all_users_infile_vector = [];
    status = true;
    inbox = submitting pass;
    sent = [];
    address = λ s. record { ip = codes "10.0.0.1"; port = 80 };
  };
  peers = 3 ∷ [];
  status = true;
  file = one;
}

submits : Submits (server (codes "pw")) 3 (codes "ann") (codes "pw") []
unfolding msg_bytes htonl read_msg recv portion c_string to_size ntohl has_nul until_nul msg_body
    msg_text
submits = record { middle = chunk (msg_bytes (codes "pw")) ∷ []; named = refl; secret = refl }

serve_login_lem_example :
    serve_login 3 (server (codes "pw"))
    ≡ some (admitted 3 (codes "ann") (heard 3 [] (server (codes "pw"))))
unfolding login has_account account_line has_line lines lines_of check_user str_eq contains
serve_login_lem_example =
    serve_login_lem (server (codes "pw")) 3 (codes "ann") (codes "pw") [] submits

serve_login_once_example :
    (t : Server) × (serve_login 3 (server (codes "pw")) ≡ some t)
    × (find (codes "ann") t.dispatcher.users_map ≡ some 0)
    × ((t.dispatcher.users 0).socket ≡ 3)
    × (t.peers ≡ drop_peer 3 (3 ∷ []))
    × (t.file ≡ one)
    × (login (codes "ann") (codes "guess") t ≡ false)
unfolding login has_account account_line has_line lines lines_of check_user str_eq contains
serve_login_once_example =
    serve_login_once (server (codes "pw")) 3 (codes "ann") (codes "pw") (codes "guess") [] submits
      refl

-- The peer's request for a login, and the server that has it in its stream.
abbrev requesting : Server
requesting = record (server []) {
  dispatcher = record (server []).dispatcher {
    inbox = λ s.
        if s == 3
        then chunk
            (command_bytes login_command ++ (msg_bytes (codes "ann") ++ msg_bytes (codes "pw")))
          ∷ []
        else [];
  };
}

-- The server that a round leads to, or the one that it started from.
abbrev outcome : Option Server → Server → Server
outcome none s = s
outcome (some t) s = t

abbrev logged : Server
logged = outcome (serve 3 requesting) requesting

requesting-IsConsistent : IsConsistent requesting.dispatcher
requesting-IsConsistent = record {
  users = tt;
  rooms = tt;
  users_ordered = tt;
  rooms_ordered = tt;
  sessions_ordered = tt;
}

serve-requesting : serve 3 requesting ≡ some logged
unfolding serve serve_command serve_login on_world next_command credentials admit confirm add_user
    login has_account account_line has_line lines lines_of check_user str_eq contains read_command
    command_bytes msg_bytes htonl read_msg recv portion c_string to_size ntohl has_nul until_nul
    msg_body msg_text update ◌>>=◌ read address_of allocate_user
serve-requesting = refl

-- A server whose file has ann's account, as it starts; ann's request will arrive at the socket 3.
abbrev starting : Server
starting =
    new_login (record { content = some (codes "ann pw\n"); writable = true })
      requesting.dispatcher.inbox (λ s. record { ip = codes "10.0.0.1"; port = 5000 })

abbrev greeted : Server
greeted = outcome (add_peer 3 starting) starting

abbrev welcomed : Server
welcomed = outcome (serve 3 greeted) greeted

add_peer-starting : add_peer 3 starting ≡ some greeted
unfolding add_peer on_world ◌>>=◌ new_login
add_peer-starting = refl

serve-greeted : serve 3 greeted ≡ some welcomed
unfolding serve serve_command serve_login on_world next_command credentials admit confirm add_user
    login has_account account_line has_line lines lines_of check_user str_eq contains read_command
    command_bytes msg_bytes htonl read_msg recv portion c_string to_size ntohl has_nul until_nul
    msg_body msg_text update ◌>>=◌ read address_of allocate_user new_login add_peer
serve-greeted = refl

Steps-new_login_example : IsConsistent welcomed.dispatcher
Steps-new_login_example =
    Steps-new_login (record { content = some (codes "ann pw\n"); writable = true })
      requesting.dispatcher.inbox (λ s. record { ip = codes "10.0.0.1"; port = 5000 }) welcomed
      (step greeted (accepted 3 add_peer-starting) (step welcomed (served 3 serve-greeted) stop))
