-- ===== src/Dispatcher/Consistency/Rounds.antt =====
-- The invariant through every handler, and so through every round of Dispatcher::run.
use networking_programming_p.Base.{ℕ, suc, ◌≡◌, refl, ap, Str, List, [], ◌∷◌, some, arith}
use networking_programming_p.OrderedMap.{insert}
use networking_programming_p.Listener.{Selected}
use networking_programming_p.Dispatcher.State.{Pointer, Socket, User, new_user, World, update}
use networking_programming_p.Dispatcher.Monad.{allocate_user}
use networking_programming_p.Dispatcher.Steps.{update_ne, update_self, added, add_user_lem}
use networking_programming_p.Dispatcher.Caller.{add_user}
use networking_programming_p.Dispatcher.Loop.{handle, round, poll, run}
use networking_programming_p.Dispatcher.Keeps.{Keeps, Keeps-exact, stable_rules, keeps_rules}
use networking_programming_p.Dispatcher.Keeps.Handlers.{
  open_session-Keeps, close_session-Keeps, leave_chatroom-Keeps, list_all_users-Keeps,
  list_users-Keeps, list_chatrooms-Keeps, list_chatroom_users-Keeps, user_exit-Keeps,
}
use networking_programming_p.Dispatcher.Consistency.{IsConsistent}
use networking_programming_p.Dispatcher.Consistency.Stable.{AreNamed-change, IsConsistent-stable}
use networking_programming_p.Dispatcher.Consistency.Joining.{
  IsConsistent-insert, join_chatroom-Keeps,
}

handle-Keeps : (command : ℕ) (user : Pointer) → Keeps IsConsistent (handle command user)
unfolding handle
handle-Keeps command user =
    search
      (
        stable_rules, IsConsistent-stable, open_session-Keeps, close_session-Keeps,
        leave_chatroom-Keeps, list_all_users-Keeps, list_users-Keeps, list_chatrooms-Keeps,
        list_chatroom_users-Keeps, user_exit-Keeps, join_chatroom-Keeps,
      )
      depth 16

-- A new object changes no name in the maps.
allocate_user-IsConsistent :
    (u : User) (w : World)
    → IsConsistent w
    → IsConsistent (record w { users = update w.users w.next_user u; next_user = suc w.next_user })
allocate_user-IsConsistent u w c = record {
  users =
      AreNamed-change _ _ w.next_user (suc w.next_user) w.users_map
        (λ q l. ap (λ (r : User). r.name) (update_ne w.users w.next_user q u (omega arith)))
        (omega arith) c.users;
  rooms = c.rooms;
  users_ordered = c.users_ordered;
  rooms_ordered = c.rooms_ordered;
  sessions_ordered = c.sessions_ordered;
}

allocate_user-Keeps : (u : User) → Keeps IsConsistent (allocate_user u)
unfolding allocate_user
allocate_user-Keeps u = Keeps-exact _ _ (λ w. refl) (allocate_user-IsConsistent u)

pub round-Keeps : (sock : Socket) → Keeps IsConsistent (round sock)
unfolding round
round-Keeps sock =
    search (stable_rules, IsConsistent-stable, allocate_user-Keeps, handle-Keeps) depth 16

poll-Keeps : (outcome : Selected) → Keeps IsConsistent (poll outcome)
unfolding poll
poll-Keeps outcome = search (keeps_rules, round-Keeps) depth 16

run-Keeps : (outcomes : List Selected) → Keeps IsConsistent (run outcomes)
unfolding run
run-Keeps [] = search keeps_rules depth 16
run-Keeps (outcome ∷ outcomes) =
    let rest : Keeps IsConsistent (run outcomes) = run-Keeps outcomes in
    search (keeps_rules, poll-Keeps) depth 16

-- However many rounds Dispatcher::run goes through without undefined behaviour, whatever select
-- reports in them and whatever the clients have sent, the maps stay consistent.
pub run-IsConsistent :
    (outcomes : List Selected) (w v : World)
    → IsConsistent w
    → run outcomes w ≡ some (tt, v)
    → IsConsistent v
run-IsConsistent outcomes w v c h = (run-Keeps outcomes).at w v tt h c

-- add_user never faults, and keeps the maps consistent.
pub add_user-IsConsistent :
    (peer : Socket) (name : Str) (w : World)
    → IsConsistent w
    → (v : World) × (add_user peer name w ≡ some (tt, v)) × IsConsistent v
unfolding added
add_user-IsConsistent peer name w c = (
  added peer name w,
  add_user_lem peer name w,
  record {
    users = kept.users;
    rooms = kept.rooms;
    users_ordered = kept.users_ordered;
    rooms_ordered = kept.rooms_ordered;
    sessions_ordered = kept.sessions_ordered;
  },
)
  where
    u : User
    u = record new_user { socket = peer; name = name }

    kept : IsConsistent (record w {
      users = update w.users w.next_user u;
      next_user = suc w.next_user;
      users_map = insert name w.next_user w.users_map;
    })
    kept = IsConsistent-insert w.next_user name _ (record {
      maps = allocate_user-IsConsistent u w c;
      named = ap (λ (x : User). x.name) (update_self w.users w.next_user u);
      made = omega arith;
    })
