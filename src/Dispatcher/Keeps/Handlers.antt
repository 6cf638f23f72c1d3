-- ===== src/Dispatcher/Keeps/Handlers.antt =====
-- The handlers of ServerSide/src/Dispatcher.cpp and the stable predicates.
use networking_programming_p.Base.{ℕ, Str, List, [], ◌∷◌}
use networking_programming_p.Dispatcher.State.{Pointer, Socket, World}
use networking_programming_p.Dispatcher.Sessions.{
  start_session, try_session, open_named, open_session, Found, end_session, close_session,
}
use networking_programming_p.Dispatcher.Members.{name-remove_member}
use networking_programming_p.Dispatcher.Rooms.{
  announce, announce_to, tell_left_to, send_members, dismiss, tell_left, leave_room, leave_chatroom,
}
use networking_programming_p.Dispatcher.Listings.{
  write_all, write_list, list_all_users, list_users, list_chatrooms, list_chatroom_users,
}
use networking_programming_p.Dispatcher.Loop.{
  tell_closed, tell_exited, exit_room, disconnect, user_exit,
}
use networking_programming_p.Dispatcher.Keeps.{Keeps, Keeps-pure, IsStable, stable_rules}

module _ {P : World → Type 0} (s : IsStable P) where
  pub announce-Keeps :
      (name : Str) (sock : Socket) (us : List Str) → Keeps P (announce name sock us)
  unfolding announce announce_to
  announce-Keeps name sock [] = Keeps-pure tt
  announce-Keeps name sock (u ∷ us) =
      let rest : Keeps P (announce name sock us) = announce-Keeps name sock us in
      search stable_rules depth 9

  pub send_members-Keeps : (sock : Socket) (us : List Str) → Keeps P (send_members sock us)
  unfolding send_members
  send_members-Keeps sock [] = Keeps-pure tt
  send_members-Keeps sock (u ∷ us) =
      let rest : Keeps P (send_members sock us) = send_members-Keeps sock us in
      search stable_rules depth 9

  dismiss-Keeps : (us : List Str) → Keeps P (dismiss us)
  unfolding dismiss
  dismiss-Keeps [] = Keeps-pure tt
  dismiss-Keeps (u ∷ us) =
      let rest : Keeps P (dismiss us) = dismiss-Keeps us in search stable_rules depth 9

  tell_left-Keeps : (name : Str) (us : List Str) → Keeps P (tell_left name us)
  unfolding tell_left tell_left_to
  tell_left-Keeps name [] = Keeps-pure tt
  tell_left-Keeps name (u ∷ us) =
      let rest : Keeps P (tell_left name us) = tell_left-Keeps name us in
      search stable_rules depth 9

  tell_closed-Keeps : (us : List Str) → Keeps P (tell_closed us)
  unfolding tell_closed
  tell_closed-Keeps [] = Keeps-pure tt
  tell_closed-Keeps (u ∷ us) =
      let rest : Keeps P (tell_closed us) = tell_closed-Keeps us in search stable_rules depth 9

  tell_exited-Keeps : (name : Str) (us : List Str) → Keeps P (tell_exited name us)
  unfolding tell_exited
  tell_exited-Keeps name [] = Keeps-pure tt
  tell_exited-Keeps name (u ∷ us) =
      let rest : Keeps P (tell_exited name us) = tell_exited-Keeps name us in
      search stable_rules depth 9

  write_all-Keeps : (sock : Socket) (us : List Str) → Keeps P (write_all sock us)
  unfolding write_all
  write_all-Keeps sock [] = Keeps-pure tt
  write_all-Keeps sock (u ∷ us) =
      let rest : Keeps P (write_all sock us) = write_all-Keeps sock us in
      search stable_rules depth 9

  ruleset loop_rules = (
    announce-Keeps, send_members-Keeps, dismiss-Keeps, tell_left-Keeps, tell_closed-Keeps,
    tell_exited-Keeps, write_all-Keeps,
  )

  start_session-Keeps :
      (sock : Socket) (caller target : Pointer) → Keeps P (start_session sock caller target)
  unfolding start_session
  start_session-Keeps sock caller target = search (stable_rules, s.on_session) depth 16

  try_session-Keeps :
      (sock : Socket) (mine theirs : Str) (caller target : Pointer)
      → Keeps P (try_session sock mine theirs caller target)
  unfolding try_session
  try_session-Keeps sock mine theirs caller target =
      search (stable_rules, start_session-Keeps) depth 12

  open_named-Keeps : (sock : Socket) (mine theirs : Str) → Keeps P (open_named sock mine theirs)
  unfolding open_named
  open_named-Keeps sock mine theirs = search (stable_rules, try_session-Keeps) depth 12

  pub open_session-Keeps : (user : Pointer) → Keeps P (open_session user)
  unfolding open_session
  open_session-Keeps user = search (stable_rules, open_named-Keeps) depth 12

  end_session-Keeps : (name : Str) (found : Found) → Keeps P (end_session name found)
  unfolding end_session
  end_session-Keeps name found = search (stable_rules, s.on_session_end) depth 12

  pub close_session-Keeps : (user : Pointer) → Keeps P (close_session user)
  unfolding close_session
  close_session-Keeps user = search (stable_rules, end_session-Keeps) depth 12

  leave_room-Keeps : (caller chatroom : Pointer) → Keeps P (leave_room caller chatroom)
  unfolding leave_room
  leave_room-Keeps caller chatroom =
      search (stable_rules, loop_rules, s.on_closed_room, name-remove_member) depth 12

  pub leave_chatroom-Keeps : (user : Pointer) → Keeps P (leave_chatroom user)
  unfolding leave_chatroom
  leave_chatroom-Keeps user = search (stable_rules, leave_room-Keeps) depth 12

  write_list-Keeps :
      (sock : Socket) (command : ℕ) (names : List Str) → Keeps P (write_list sock command names)
  unfolding write_list
  write_list-Keeps sock command names = search (stable_rules, loop_rules) depth 12

  pub list_all_users-Keeps : (user : Pointer) → Keeps P (list_all_users user)
  unfolding list_all_users
  list_all_users-Keeps user = search (stable_rules, write_list-Keeps) depth 12

  pub list_users-Keeps : (user : Pointer) → Keeps P (list_users user)
  unfolding list_users
  list_users-Keeps user = search (stable_rules, write_list-Keeps) depth 12

  pub list_chatrooms-Keeps : (user : Pointer) → Keeps P (list_chatrooms user)
  unfolding list_chatrooms
  list_chatrooms-Keeps user = search (stable_rules, write_list-Keeps) depth 12

  pub list_chatroom_users-Keeps : (user : Pointer) → Keeps P (list_chatroom_users user)
  unfolding list_chatroom_users
  list_chatroom_users-Keeps user = search (stable_rules, write_list-Keeps) depth 12

  exit_room-Keeps : (caller chatroom : Pointer) → Keeps P (exit_room caller chatroom)
  unfolding exit_room
  exit_room-Keeps caller chatroom =
      search (stable_rules, loop_rules, s.on_closed_room, name-remove_member) depth 12

  disconnect-Keeps : (caller : Pointer) → Keeps P (disconnect caller)
  unfolding disconnect
  disconnect-Keeps caller = search (stable_rules, exit_room-Keeps, close_session-Keeps) depth 12

  pub user_exit-Keeps : (user : Pointer) → Keeps P (user_exit user)
  unfolding user_exit
  user_exit-Keeps user = search (stable_rules, disconnect-Keeps, s.on_exit) depth 12
