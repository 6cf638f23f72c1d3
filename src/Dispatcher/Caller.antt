-- ===== src/Dispatcher/Caller.antt =====
-- The loop with which the handlers of Dispatcher.cpp look for the user of a socket, and add_user.
use networking_programming_p.Base.{
  Str, [], ◌∷◌, ◌++◌, Option, none, some, true, ◌==◌, if◌then◌else◌,
}
use networking_programming_p.OrderedMap.{OrderedMap, insert}
use networking_programming_p.Dispatcher.State.{Pointer, Socket, User, new_user}
use networking_programming_p.Dispatcher.Monad.{M, ◌>>=◌, gets, modify, deref, allocate_user}

-- `_user` after the loop over users_map: the first user with the socket, else the last user of
-- the map, else what it was before.
unfoldable pub scan_users :
    (Pointer → User) → Socket → Option Pointer → OrderedMap Pointer → Option Pointer
scan_users users sock last [] = last
scan_users users sock last ((name, p) ∷ m) =
    let rest = scan_users users sock (some p) m in if (users p).socket == sock then some p else rest

-- `_user` of the methods that declare it without a value.
unfoldable pub current_user : Socket → M Pointer
current_user sock = do found ← gets (λ w. scan_users w.users sock none w.users_map); deref found

-- Dispatcher::add_user; to start the thread is to set `status`.
unfoldable pub add_user : Socket → Str → M (Unit {0})
add_user peer name = do
  user ← allocate_user (record new_user { socket = peer; name = name })
  modify λ w. record w {
    users_map = insert name user w.users_map;
    users_vector = w.users_vector ++ (peer ∷ []);
    status = true;
  }

-- Dispatcher::add_user_to_vector
unfoldable pub add_user_to_vector : Str → M (Unit {0})
add_user_to_vector name =
    modify (λ w. record w { all_users_infile_vector = w.all_users_infile_vector ++ (name ∷ []) })
