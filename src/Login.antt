-- ===== src/Login.antt =====
-- LoginAndSignUp.cpp: the thread that lets peers log in and sign up before the dispatcher gets
-- them, over the file users.txt. `File` has the file, `Accounts` how the loops over it agree.
pub mod File
pub mod Accounts
pub mod Entry
pub mod Signup
pub mod Interleaving
pub mod Start
pub mod Tests
use mathlib.Core.Option
use networking_programming_p.Base.{
  ℕ, Str, List, [], ◌∷◌, ◌++◌, Option, none, some, Bool, true, false, not, ◌&&◌, str_eq, ◌==◌,
  codes, if◌then◌else◌,
}
use networking_programming_p.Address.{dest_ip_and_port}
use networking_programming_p.OrderedMap.{contains}
use networking_programming_p.Protocol.{
  login_or_signup, login as login_command, signup as signup_command, confirm_user, login_denied,
  username_taken, bad_command,
}
use networking_programming_p.Dispatcher.State.{Socket, World}
use networking_programming_p.Dispatcher.Monad.{
  M, ◌>>=◌, ◌>>◌, pure, read, next_command, write_command, write_msg,
}
use networking_programming_p.Dispatcher.Caller.{add_user, add_user_to_vector}
use networking_programming_p.Dispatcher.Sessions.{address_of}
use File.{UsersFile, has_account, is_taken, append_account}

-- The fields of LoginAndSignUp with the dispatcher that it owns, and users.txt.
pub record Server : Type 0 where
  pub dispatcher : World
  pub peers : List Socket
  pub status : Bool
  pub file : UsersFile

-- Dispatcher::checkUser
unfoldable pub check_user : Str → World → Bool
check_user name w = contains name w.users_map

-- LoginAndSignUp::login
unfoldable pub login : Str → Str → Server → Bool
unfolding check_user
login name pass s = has_account name pass s.file && not (check_user name s.dispatcher)

-- peers.erase(find(peers.begin(), peers.end(), peer))
unfoldable pub drop_peer : Socket → List Socket → List Socket
drop_peer peer [] = []
drop_peer peer (p ∷ ps) = let rest = p ∷ drop_peer peer ps in if p == peer then ps else rest

-- The two texts of a login or signup request.
unfoldable pub credentials : Socket → M (Str × Str)
credentials peer = do username ← read peer; password ← read peer; pure (username, password)

-- What a peer that is let in is sent, and its entry into the dispatcher.
unfoldable pub confirm : Socket → Str → M (Unit {0})
confirm peer username = do
  write_command peer confirm_user
  write_msg peer username
  text ← address_of peer
  write_msg peer text
  add_user peer username

-- An action of the dispatcher's world, as one of the server's.
unfoldable pub on_world : {A : Type 0} → M A → Server → Option (A × Server)
on_world m s = elim (m s.dispatcher) [
  | none ↦ none
  | some (a, w) ↦ some (a, record s { dispatcher = w })
]

-- The server after an action of the dispatcher's world.
abbrev pub then_server : {A : Type 0} → Option (A × Server) → Option Server
then_server = Option.map (λ r. r.1)

-- A peer that is let in leaves `peers`.
unfoldable pub admit : Socket → M (Unit {0}) → Server → Option Server
admit peer m s =
    Option.map (λ (t : Server). record t { peers = drop_peer peer t.peers })
      (then_server (on_world m s))

-- The branch of run for LOGIN
unfoldable pub serve_login : Socket → Server → Option Server
serve_login peer s = elim (on_world (credentials peer) s) [
  | none ↦ none
  | some ((username, password), t) ↦
      if login username password t
      then admit peer (confirm peer username) t
      else then_server (on_world (write_command peer login_denied) t)
]

-- LoginAndSignUp::signup for a name that is free
abbrev pub registered : Str → Str → Server → Server
registered name pass s = record s { file = append_account name pass s.file }

-- The branch of run for SIGNUP
unfoldable pub serve_signup : Socket → Server → Option Server
serve_signup peer s = elim (on_world (credentials peer) s) [
  | none ↦ none
  | some ((username, password), t) ↦
      if is_taken username t.file
      then then_server (on_world (write_command peer username_taken) t)
      else admit peer (confirm peer username >> add_user_to_vector username)
          (registered username password t)
]

-- The chain of tests in LoginAndSignUp::run
unfoldable pub serve_command : ℕ → Socket → Server → Option Server
serve_command command peer s =
    if command == 0
    then some s
    else if command == login_command
    then serve_login peer s
    else if command == signup_command
    then serve_signup peer s
    else then_server (on_world (write_command peer bad_command) s)

-- One round of LoginAndSignUp::run, for the peer that listenToSocket returned (0 is NULL).
unfoldable pub serve : Socket → Server → Option Server
serve ready_peer s =
    if ready_peer == 0 then some s else elim (on_world (next_command ready_peer) s) [
      | none ↦ none
      | some (command, t) ↦ serve_command command ready_peer t
    ]

-- LoginAndSignUp::addPeer
unfoldable pub add_peer : Socket → Server → Option Server
add_peer peer s = then_server (
    on_world (write_command peer login_or_signup)
      (record s { peers = s.peers ++ (peer ∷ []); status = true }))
