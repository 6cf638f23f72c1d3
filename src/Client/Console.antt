-- ===== src/Client/Console.antt =====
-- The console of the client (ClientSide/src/Client.cpp, main). What it prints is left out, and so
-- is the wait after a login, in which the thread of Run goes on.
pub mod Ends
pub mod Offline
pub mod Printed
pub mod Tests
use networking_programming_p.Base.{
  ℕ, zero, suc, Str, List, [], ◌∷◌, Option, none, some, Bool, true, false, codes, str_eq, ◌==◌,
  if◌then◌else◌,
}
use networking_programming_p.Wire.{Arrival}
use networking_programming_p.Console.{next_word, next_line}
use networking_programming_p.Client.{Client}
use networking_programming_p.Client.Requests.{
  connect_to_server, get_users, send_login, send_signup, disconnect_from_server, list_all_users,
  list_all_chatrooms, list_chatroom_users, open_session, close_session, create_chat_room,
  send_msg_to_session, close,
}

-- What connecting gives: whether there is a descriptor for it, and what then arrives on it.
abbrev pub Dial : Type 0
Dial = Bool × List Arrival

-- The variables of main, what is still to be read from cin, and the outcomes of the connects to
-- come, behind which there is no descriptor for any.
pub record Cli : Type 0 where
  pub client : Client
  pub username : Str
  pub password : Str
  pub room_name : Str
  pub ip : Str
  pub peer_usr : Str
  pub msg : Str
  pub input : List ℕ
  pub dials : List Dial

abbrev pub first_dial : List Dial → Dial
first_dial [] = (false, [])
first_dial (d ∷ ds) = d

abbrev pub later_dials : List Dial → List Dial
later_dials [] = []
later_dials (d ∷ ds) = ds

-- A call of the client that has a fault or not.
abbrev pub with_client : Cli → Client → Cli
with_client s c = record s { client = c }

abbrev pub with_result : Cli → Option Client → Option Cli
with_result s none = none
with_result s (some c) = some (with_client s c)

-- Each read of cin into one of the variables.
abbrev pub read_ip : Cli → Cli
read_ip s = let (word, rest) = next_word s.ip s.input in record s { ip = word; input = rest }

abbrev pub read_username : Cli → Cli
read_username s =
    let (word, rest) = next_word s.username s.input in record s { username = word; input = rest }

abbrev pub read_password : Cli → Cli
read_password s =
    let (word, rest) = next_word s.password s.input in record s { password = word; input = rest }

abbrev pub read_room_name : Cli → Cli
read_room_name s =
    let (word, rest) = next_word s.room_name s.input in record s { room_name = word; input = rest }

abbrev pub read_peer_usr : Cli → Cli
read_peer_usr s =
    let (word, rest) = next_word s.peer_usr s.input in record s { peer_usr = word; input = rest }

abbrev pub read_line : Cli → Cli
read_line s = let (line, rest) = next_line s.msg s.input in record s { msg = line; input = rest }

-- if (msg.size() > 0 && msg[0] == ' ') msg.erase(0, 1)
abbrev pub erase_space : Str → Str
erase_space [] = []
erase_space (b ∷ bs) = if b == 32 then bs else b ∷ bs

-- The branch for "c": the flag is set if there is a descriptor, whether or not it is connected.
unfoldable pub connect : Cli → Cli
connect s =
    let d = first_dial s.dials in
    let (has_descriptor, c) = connect_to_server d.0 d.1 s.client in
    record s {
      client = if has_descriptor then record c { is_connected_to_server = true } else c;
      dials = later_dials s.dials;
    }

-- "login" and "register"
unfoldable pub log_in : Cli → Cli
log_in s =
    if s.client.is_connected_to_server
    then if s.client.is_logged_in
      then s
      else with_client s (send_login s.username s.password s.client)
    else s

abbrev pub sign_up : Cli → Cli
sign_up s = with_client s (send_signup s.username s.password s.client)

unfoldable pub register : Cli → Cli
register s =
    if s.client.is_connected_to_server then sign_up (read_password (read_username s)) else s

-- "lu", "lcu" and "lr", "cs" and "d": one call, of a client that is connected.
unfoldable pub if_connected : (Client → Client) → Cli → Cli
if_connected f s = if s.client.is_connected_to_server then with_client s (f s.client) else s

-- "lru"
abbrev pub list_named : Cli → Cli
list_named s = with_client s (list_chatroom_users s.room_name s.client)

unfoldable pub list_room : Cli → Cli
list_room s = if s.client.is_connected_to_server then list_named (read_room_name s) else s

-- "o" and "or": a client that is in a session is told to leave it first.
unfoldable pub open_peer : Cli → Cli
open_peer s =
    if s.client.is_connected_to_server
    then if s.client.is_in_session
      then s
      else with_client s (open_session s.username s.peer_usr s.client)
    else s

unfoldable pub open_room : Cli → Cli
open_room s =
    if s.client.is_connected_to_server
    then if s.client.is_in_session
      then s
      else with_client s
          (record (create_chat_room s.room_name s.client) { chat_name = s.room_name })
    else s

-- "s": only in a session is the rest of the line read.
abbrev pub say : Cli → Option Cli
say s = with_result s (send_msg_to_session s.msg s.client)

abbrev pub without_space : Cli → Cli
without_space s = record s { msg = erase_space s.msg }

unfoldable pub send_line : Cli → Option Cli
send_line s =
    if s.client.is_connected_to_server
    then if s.client.is_in_session then say (without_space (read_line s)) else some s
    else some s

-- The chain of tests; "l", "p" and any other command only print.
unfoldable pub serve : Str → Cli → Option Cli
serve command s =
    if str_eq command (codes "c")
    then some (connect (read_ip s))
    else if str_eq command (codes "login")
    then some (log_in (read_password (read_username s)))
    else if str_eq command (codes "register")
    then some (register s)
    else if str_eq command (codes "lu")
    then some (if_connected get_users s)
    else if str_eq command (codes "lcu")
    then some (if_connected list_all_users s)
    else if str_eq command (codes "lr")
    then some (if_connected list_all_chatrooms s)
    else if str_eq command (codes "lru")
    then some (list_room s)
    else if str_eq command (codes "o")
    then some (open_peer (read_peer_usr s))
    else if str_eq command (codes "cs")
    then some (if_connected close_session s)
    else if str_eq command (codes "or")
    then some (open_room (read_room_name s))
    else if str_eq command (codes "s")
    then send_line s
    else if str_eq command (codes "d")
    then some (if_connected disconnect_from_server s)
    else if str_eq command (codes "x")
    then some (with_client s (close s.client))
    else some s

-- How the loop stands: a fault, at work, or left.
pub data Outcome : Type 0 where
  fault : Outcome
  working : Cli → Outcome
  ended : Cli → Outcome

-- The test of the loop, behind a command.
abbrev pub after : Str → (Cli → Outcome) → Option Cli → Outcome
after command k none = fault
after command k (some s) = if str_eq command (codes "x") then ended s else k s

-- The loop of main on fuel, where one round takes one unit.
unfoldable pub loop : ℕ → Cli → Outcome
loop zero s = working s
loop (suc f) s =
    let (command, rest) = next_word [] s.input in
    after command (loop f) (serve command (record s { input = rest }))
