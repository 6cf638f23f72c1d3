-- ===== src/Client/Console/Printed.antt =====
-- What the console of the client prints (ClientSide/src/Client.cpp, main, print_instructions,
-- closeSession and the status that "l" asks for), one text for each call of endl.
use networking_programming_p.Base.{
  ◌≡◌, refl, Str, List, [], ◌∷◌, ◌++◌, Option, none, some, false, codes, str_eq, if◌then◌else◌, inl,
  inr, ◌⊎◌,
}
use networking_programming_p.Client.{Client}
use networking_programming_p.Client.Requests.{get_name}
use networking_programming_p.Client.Console.{
  Cli, first_dial, serve, if_connected, log_in, register, list_room, open_peer, open_room,
  send_line,
}

-- print_instructions
abbrev pub instructions : List Str
instructions =
    []
    ∷ codes "c <ip> - connect to server"
    ∷ codes "login <username> <password> - Login to server"
    ∷ codes "register <username> <password> - Signup to server"
    ∷ codes "lu - print all users from server"
    ∷ codes "lcu - print all connected users from server"
    ∷ codes "lr - print chatrooms list from server"
    ∷ codes "lru <chatroom name> - print all chatroom users"
    ∷ codes "o <username> - open a session with a user"
    ∷ codes "cs - close the current session"
    ∷ codes "or <roomname> - create a new chat room/join a chatroom if already exist"
    ∷ codes "s <message> - send a message to session user"
    ∷ codes "l - print connection status"
    ∷ codes "d - disconnect from server"
    ∷ codes "p - print instructions"
    ∷ codes "x - close app"
    ∷ []
    ∷ []

-- What main prints before its loop.
abbrev pub welcome : List Str
welcome =
    codes "Welcome Dear User\nthis is your new messenger\nPlease enter a command by the following:"
    ∷ instructions

abbrev pub not_connected : List Str
not_connected = codes "ERROR - You are not connected to a server" ∷ []

-- A line of a branch that asks for a connection first.
abbrev pub connected_lines : Client → List Str → List Str
connected_lines c lines = if c.is_connected_to_server then lines else not_connected

-- EXIT_SESSION ends with a line feed of its own.
abbrev pub in_session_lines : List Str
in_session_lines =
    codes
      "ERROR - already in session with other user or roomto exit current session or chat room enter cs\n"
    ∷ []

-- What Client::closeSession prints.
unfoldable pub close_session_lines : Client → List Str
close_session_lines c =
    if c.is_in_session
    then if c.is_in_chat_room then [] else codes "session has ended" ∷ []
    else codes "You don't have an open session" ∷ []

-- "l", by Client::sessionStatus and Client::chartoomStatus.
unfoldable pub status_lines : Client → List Str
status_lines c =
    if c.is_in_session
    then (codes "You are connected to " ++ get_name c) ∷ []
    else if c.is_in_chat_room
    then (codes "You are connected to a chatroom to" ++ get_name c) ∷ []
    else codes "Your are connected only to the server" ∷ []

-- What a command prints, before the next one is read.
unfoldable pub serve_lines : Str → Cli → List Str
unfolding close_session_lines status_lines
serve_lines command s =
    if str_eq command (codes "c")
    then codes "Opening new client socket"
      ∷ (if (first_dial s.dials).0 then [] else codes "Could not connect to sever" ∷ [])
    else if str_eq command (codes "login")
    then connected_lines s.client
        (if s.client.is_logged_in then codes "you are already logged in" ∷ [] else [])
    else if str_eq command (codes "register")
    then connected_lines s.client []
    else if str_eq command (codes "lu")
    then connected_lines s.client []
    else if str_eq command (codes "lcu")
    then connected_lines s.client []
    else if str_eq command (codes "lr")
    then connected_lines s.client []
    else if str_eq command (codes "lru")
    then connected_lines s.client []
    else if str_eq command (codes "o")
    then connected_lines s.client (if s.client.is_in_session then in_session_lines else [])
    else if str_eq command (codes "cs")
    then connected_lines s.client (close_session_lines s.client)
    else if str_eq command (codes "or")
    then connected_lines s.client (if s.client.is_in_session then in_session_lines else [])
    else if str_eq command (codes "s")
    then connected_lines s.client (if s.client.is_in_session then [] else codes "error" ∷ [])
    else if str_eq command (codes "l")
    then connected_lines s.client (status_lines s.client)
    else if str_eq command (codes "d")
    then connected_lines s.client (codes "Disconnecting Server..." ∷ codes "closing socket" ∷ [])
    else if str_eq command (codes "x")
    then if s.client.is_connected_to_server then codes "closing socket" ∷ [] else []
    else if str_eq command (codes "p")
    then instructions
    else codes "Bad command!" ∷ []

-- A client that is left as it was.
abbrev pub IsLeft : Client → Option Cli → Type 0
IsLeft c none = ⊥
IsLeft c (some t) = t.client ≡ c

-- The commands that ask for a connection.
abbrev pub NeedsConnection : Str → Type 0
NeedsConnection command =
    (command ≡ codes "login")
    ⊎ (command ≡ codes "register")
    ⊎ (command ≡ codes "lu")
    ⊎ (command ≡ codes "lcu")
    ⊎ (command ≡ codes "lr")
    ⊎ (command ≡ codes "lru")
    ⊎ (command ≡ codes "o")
    ⊎ (command ≡ codes "cs")
    ⊎ (command ≡ codes "or")
    ⊎ (command ≡ codes "s")
    ⊎ (command ≡ codes "d")

sends_nothing : (s : Cli) → s.client.is_connected_to_server ≡ false → IsLeft s.client (send_line s)
unfolding send_line
sends_nothing s o = rw o refl

-- Without a connection, each command that asks for one prints the one line that says so, and
-- leaves the client as it was.
pub serve_lines-offline :
    (command : Str) (s : Cli)
    → NeedsConnection command
    → s.client.is_connected_to_server ≡ false
    → (serve_lines command s ≡ not_connected) × IsLeft s.client (serve command s)
unfolding serve_lines serve str_eq log_in register if_connected list_room open_peer open_room
serve_lines-offline command s n o = elim n [
  | inl k ↦ rw k (rw o (refl, refl))
  | inr (inl k) ↦ rw k (rw o (refl, refl))
  | inr (inr (inl k)) ↦ rw k (rw o (refl, refl))
  | inr (inr (inr (inl k))) ↦ rw k (rw o (refl, refl))
  | inr (inr (inr (inr (inl k)))) ↦ rw k (rw o (refl, refl))
  | inr (inr (inr (inr (inr (inl k))))) ↦ rw k (rw o (refl, refl))
  | inr (inr (inr (inr (inr (inr (inl k)))))) ↦ rw k (rw o (refl, refl))
  | inr (inr (inr (inr (inr (inr (inr (inl k))))))) ↦ rw k (rw o (refl, refl))
  | inr (inr (inr (inr (inr (inr (inr (inr (inl k)))))))) ↦ rw k (rw o (refl, refl))
  | inr (inr (inr (inr (inr (inr (inr (inr (inr (inl k))))))))) ↦
      rw k (rw o refl, sends_nothing s o)
  | inr (inr (inr (inr (inr (inr (inr (inr (inr (inr k))))))))) ↦ rw k (rw o (refl, refl))
]
