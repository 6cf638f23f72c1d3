-- ===== src/ServerConsole.antt =====
-- The console of the server (ServerSide/src/Server.cpp, main and the methods of Server that it
-- calls), and what it prints of the server's state (Dispatcher::printUsers and the like in
-- ServerSide/src/Dispatcher.cpp).
pub mod Closed
pub mod Closing
pub mod Spoiled
pub mod Tests
use mathlib.Core.Option
use networking_programming_p.Base.{
  ℕ, zero, suc, Str, List, [], ◌∷◌, ◌++◌, map, Option, none, some, Bool, true, false, codes, str_eq,
  ◌==◌, if◌then◌else◌,
}
use networking_programming_p.Address.{decimal}
use networking_programming_p.Listener.{Selected}
use networking_programming_p.Objects.{Object, live, delete_object, delete_if_set, use_object}
use networking_programming_p.Login
use networking_programming_p.OrderedMap.{OrderedMap, find, keys}
use networking_programming_p.Console.{next_word}
use networking_programming_p.Dispatcher.State.{Pointer, Socket, ChatRoom, World}
use networking_programming_p.Dispatcher.Loop
use networking_programming_p.Login.{Server, on_world, then_server, add_peer}
use networking_programming_p.Login.File.{get_all_users}

-- Dispatcher::printUsers
unfoldable pub user_lines : OrderedMap Pointer → List Str
user_lines [] = codes "There are no connected users" ∷ []
user_lines (e ∷ m) = map (λ name. codes "Connected user: " ++ name) (keys (e ∷ m))

abbrev pub session_line : Str × Str → Str
session_line (first, second) = first ++ (codes " is in session with " ++ second)

-- Dispatcher::ptintSessions
unfoldable pub session_lines : OrderedMap Str → List Str
session_lines [] = codes "There are no active sessions at the moment" ∷ []
session_lines (e ∷ m) = codes "Sessions:" ∷ map session_line (e ∷ m)

abbrev pub no_chat_rooms : List Str
no_chat_rooms = codes "There are no open chatrooms at this moment" ∷ []

-- Dispatcher::printChatRooms
unfoldable pub chat_room_lines : OrderedMap Pointer → List Str
chat_room_lines [] = no_chat_rooms
chat_room_lines (e ∷ m) = codes "Chatrooms:" ∷ keys (e ∷ m)

-- Dispatcher::printUsersInChatRoom, once the name was read.
abbrev pub room_lines : ChatRoom → List Str
room_lines room = (codes "Users in " ++ (room.name ++ codes ":")) ∷ room.users

abbrev pub found_lines : (Pointer → ChatRoom) → Option Pointer → List Str
found_lines rooms none = codes "A chatroom with that name doesn't exist" ∷ []
found_lines rooms (some chatroom) = room_lines (rooms chatroom)

unfoldable pub member_lines : Str → (Pointer → ChatRoom) → OrderedMap Pointer → List Str
member_lines name rooms [] = no_chat_rooms
member_lines name rooms (e ∷ m) = found_lines rooms (find name (e ∷ m))

abbrev pub numbered : ℕ → List Str → List Str
numbered i [] = []
numbered i (name ∷ names) =
    (codes "User #" ++ (decimal i ++ (codes ": " ++ name))) ∷ numbered (suc i) names

-- Server::printAllUsers
unfoldable pub all_user_lines : List Str → List Str
all_user_lines names = codes "*** All users list ***" ∷ numbered 1 names

-- What the pointers of the server point to that its close deletes: `dispatcher` and `sockets` of the
-- login thread, `listener` of the dispatcher, and `listen_sock`. `loginAndSign` is set once, by the
-- constructor, and deleted once.
pub record Objects : Type 0 where
  pub dispatcher : Object
  pub listener : Object
  pub sockets : Object
  pub listen_sock : Object

-- The variables of main: its server with its objects, the command, which is not cleared before it is read, what is
-- still to be read from cin, and the lines that were printed.
pub record Cli : Type 0 where
  pub server : Server
  pub objects : Objects
  pub is_listening : Bool
  pub command : Str
  pub input : List ℕ
  pub printed : List Str

abbrev pub print : List Str → Cli → Cli
print lines s = record s { printed = s.printed ++ lines }

-- The end of LoginAndSignUp::close, behind the close of the dispatcher
unfoldable pub delete_login : Objects → Object × Server → Option (Objects × Server)
delete_login o (listener, t) = elim (delete_if_set o.dispatcher) [
  | none ↦ none
  | some dispatcher ↦ elim (delete_if_set o.sockets) [
    | none ↦ none
    | some sockets ↦ some (
      record o { dispatcher = dispatcher; listener = listener; sockets = sockets },
      record t { status = false },
    )
  ]
]

-- LoginAndSignUp::close
unfoldable pub close_login : Objects → Server → Option (Objects × Server)
close_login o s = elim (on_world (Loop.close o.listener) s) [
  | none ↦ none
  | some r ↦ delete_login o r
]

-- The last line is that of TCPSocket::cclose.
abbrev pub closing_lines : World → List Str
closing_lines w =
    codes "Server application in closing ..." ∷ keys w.users_map ++ (codes "closing socket" ∷ [])

-- The end of Server::close: the socket is closed and deleted.
unfoldable pub close_socket : Object → Option Object
close_socket listen_sock = elim (use_object listen_sock) [ none ↦ none | some o ↦ delete_if_set o ]

-- The end of Server::close, behind the close of the login thread
unfoldable pub close_rest : Cli → Objects × Server → Option Cli
close_rest s (o, t) = elim (close_socket o.listen_sock) [
  | none ↦ none
  | some listen_sock ↦ some (record s {
    server = t;
    objects = record o { listen_sock = listen_sock };
    is_listening = false;
    printed = s.printed ++ closing_lines s.server.dispatcher;
  })
]

-- Server::close; Dispatcher::close prints the name of every user that it tells.
unfoldable pub close : Cli → Option Cli
close s = elim (close_login s.objects s.server) [ none ↦ none | some r ↦ close_rest s r ]

-- A round of Dispatcher::run, which makes a listener and deletes it.
unfoldable pub dispatch : Selected → Cli → Option Cli
dispatch outcome s = elim (delete_object live) [
  | none ↦ none
  | some listener ↦ elim (on_world (Loop.poll outcome) s.server) [
    | none ↦ none
    | some (u, t) ↦
        some (record s { server = t; objects = record s.objects { listener = listener } })
  ]
]

-- A round of LoginAndSignUp::run, which makes its sockets and deletes them.
unfoldable pub attend : Socket → Cli → Option Cli
attend ready_peer s = elim (delete_object live) [
  | none ↦ none
  | some sockets ↦ elim (Login.serve ready_peer s.server) [
    | none ↦ none
    | some t ↦ some (record s { server = t; objects = record s.objects { sockets = sockets } })
  ]
]

-- "lru": the name is read by printUsersInChatRoom, into a variable of its own.
unfoldable pub list_room : Cli → Cli
list_room s =
    let (name, rest) = next_word [] s.input in
    let w = s.server.dispatcher in
    print (member_lines name w.rooms w.chatrooms_map) (record s { input = rest })

-- print_instructions
abbrev pub instructions : List Str
instructions =
    []
    ∷ codes "Your Commands:"
    ∷ codes "lu - list all users"
    ∷ codes "lcu - list all connected users"
    ∷ codes "ls - list all sessions"
    ∷ codes "lr - list all chatrooms"
    ∷ codes "lru <room name> - list all users in a chatroom"
    ∷ codes "p - print commands"
    ∷ codes "x - close the app"
    ∷ []
    ∷ []

-- The chain of tests
unfoldable pub serve : Str → Cli → Option Cli
serve command s =
    if str_eq command (codes "lcu")
    then some (print (user_lines s.server.dispatcher.users_map) s)
    else if str_eq command (codes "lu")
    then some (print (all_user_lines (get_all_users s.server.file)) s)
    else if str_eq command (codes "ls")
    then some (print (session_lines s.server.dispatcher.in_session_with) s)
    else if str_eq command (codes "lr")
    then some (print (chat_room_lines s.server.dispatcher.chatrooms_map) s)
    else if str_eq command (codes "lru")
    then some (list_room s)
    else if str_eq command (codes "p")
    then some (print instructions s)
    else if str_eq command (codes "x")
    then close s
    else some (print (codes "** BAD COMMAND **" ∷ []) s)

-- How the loop stands: a fault, at work, or left.
pub data Outcome : Type 0 where
  fault : Outcome
  working : Cli → Outcome
  ended : Cli → Outcome

-- The test of the loop, behind a command.
abbrev pub after : (Cli → Outcome) → Option Cli → Outcome
after k none = fault
after k (some s) = if str_eq s.command (codes "x") then ended s else k s

-- `cin >> command`
abbrev pub read_command : Cli → Cli
read_command s =
    let (command, rest) = next_word s.command s.input in
    record s { command = command; input = rest }

abbrev pub answer : Cli → Option Cli
answer s = serve s.command s

-- The loop of main on fuel, where one round takes one unit.
unfoldable pub loop : ℕ → Cli → Outcome
loop zero s = working s
loop (suc f) s = after (loop f) (answer (read_command s))

-- The loop of Server::run, for what listenAndAccept gives (0 is NULL), while `status` holds.
unfoldable pub accept_all : List Socket → Cli → Option Cli
accept_all [] s = some s
accept_all (temp_sock ∷ socks) s =
    if s.is_listening
    then if temp_sock == 0 then accept_all socks s else elim (add_peer temp_sock s.server) [
      | none ↦ none
      | some t ↦ accept_all socks (record s { server = t })
    ]
    else some s
