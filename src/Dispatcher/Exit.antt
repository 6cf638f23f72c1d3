-- ===== src/Dispatcher/Exit.antt =====
-- user_exit, branch by branch (ServerSide/src/Dispatcher.cpp).
use networking_programming_p.Base.{
  Bool, ◌||◌, if◌then◌else◌, Bool-cases, inl, inr, subst, ◌≡◌, refl, sym, ap, ◌∙◌, Str, List, [],
  ◌∷◌, ◌++◌, append_assoc, append-nil, Option, none, some, true, false, str_eq,
}
use networking_programming_p.OrderedMap.{OrderedMap, erase, find, keys}
use networking_programming_p.Protocol.{
  close_session_error, chatroom_was_closed, user_has_left_chatroom, bye_bye_msg,
}
use networking_programming_p.Dispatcher.State.{Pointer, User, ChatRoom, Packet, World, update}
use networking_programming_p.Dispatcher.Monad.{
  ◌>>=◌, branch◌then◌else◌, on_option, user_at, command_packets, msg_packets,
}
use networking_programming_p.Dispatcher.Caller.{scan_users, current_user}
use networking_programming_p.Dispatcher.Steps.{
  >>=_step, resent, send, update_self, user_at_lem, current_user_lem,
}
use networking_programming_p.Dispatcher.Members.{remove_member}
use networking_programming_p.Dispatcher.Sessions.{Found, scan_sessions, close_session}
use networking_programming_p.Dispatcher.Sessions.Close.{nobody, ended, close_session_lem}
use networking_programming_p.Dispatcher.Rooms.Join.{AreConnected}
use networking_programming_p.Dispatcher.Loop.{
  tell_closed, tell_exited, exit_room, disconnect, user_exit,
}

-- What the members of a room are sent when its owner exits.
abbrev pub closing_packets : (Pointer → User) → OrderedMap Pointer → List Packet
closing_packets users [] = []
closing_packets users ((u, p) ∷ members) =
    command_packets (users p).socket chatroom_was_closed ++ closing_packets users members

-- What they are sent when another user exits.
abbrev pub exit_packets : Str → (Pointer → User) → OrderedMap Pointer → List Packet
exit_packets name users [] = []
exit_packets name users ((u, p) ∷ members) =
    command_packets (users p).socket user_has_left_chatroom
    ++ (msg_packets (users p).socket name ++ exit_packets name users members)

tell_closed_lem :
    (members : OrderedMap Pointer) (w : World)
    → AreConnected w.users_map members
    → tell_closed (keys members) w ≡ some (tt, send (closing_packets w.users members) w)
unfolding tell_closed ◌>>=◌
tell_closed_lem [] w c = resent w (sym (append-nil w.sent))
tell_closed_lem ((u, p) ∷ members) w c =
    let mine = command_packets (w.users p).socket chatroom_was_closed in
    >>=_step (user_at u) _ (user_at_lem u w p c.0)
    ∙ tell_closed_lem members (send mine w) c.1
    ∙ resent w (append_assoc w.sent mine (closing_packets w.users members))

tell_exited_lem :
    (name : Str) (members : OrderedMap Pointer) (w : World)
    → AreConnected w.users_map members
    → tell_exited name (keys members) w ≡ some (tt, send (exit_packets name w.users members) w)
unfolding tell_exited ◌>>=◌
tell_exited_lem name [] w c = resent w (sym (append-nil w.sent))
tell_exited_lem name ((u, p) ∷ members) w c =
    let command = command_packets (w.users p).socket user_has_left_chatroom in
    let text = msg_packets (w.users p).socket name in
    >>=_step (user_at u) _ (user_at_lem u w p c.0)
    ∙ tell_exited_lem name members (send text (send command w)) c.1
    ∙ resent w (
        append_assoc (w.sent ++ command) text (exit_packets name w.users members)
        ∙ append_assoc w.sent command (text ++ exit_packets name w.users members))

-- The world after the owner of a room has gone from it.
unfoldable pub room_closed : Pointer → OrderedMap Pointer → World → World
room_closed chatroom members w = record w {
  chatrooms_map = erase (w.rooms chatroom).name w.chatrooms_map;
  sent = w.sent ++ closing_packets w.users members;
}

-- The world after another member has gone from it.
unfoldable pub room_left : Pointer → Pointer → OrderedMap Pointer → World → World
room_left caller chatroom members w = record w {
  rooms = update w.rooms chatroom (remove_member (w.users caller).name (w.rooms chatroom));
  sent = w.sent ++ exit_packets (w.users caller).name w.users members;
}

-- What the sessions hold of a user.
abbrev pub session_of : World → Pointer → Found
session_of w caller = scan_sessions (w.users caller).name nobody w.in_session_with

abbrev pub IsPaired : World → Pointer → Type 0
IsPaired w caller = ((session_of w caller).first || (session_of w caller).second) ≡ true

-- The world after a user that points to no room has closed its session, by what the sessions hold.
abbrev pub session_left : Pointer → Pointer → Pointer → World → World
session_left caller partner self w =
    let found = session_of w caller in
    if found.first || found.second
    then ended partner self (if found.first then (w.users caller).name else found.partner) w
    else send (command_packets (w.users caller).socket close_session_error) w

-- The world after a user with its flag set has parted from what it is in, by the room it points to.
abbrev pub parted :
    Pointer → Pointer → Pointer → OrderedMap Pointer → World → Option Pointer → World
parted caller partner self members w none = session_left caller partner self w
parted caller partner self members w (some chatroom) =
    if str_eq (w.rooms chatroom).owner (w.users caller).name
    then room_closed chatroom members w
    else room_left caller chatroom members w

-- Those who are told when a user exits from the room that it points to: for its owner, all who are
-- on the list, and for another, those on it behind remove_user. They are connected.
abbrev pub HasAudienceAt : Pointer → OrderedMap Pointer → World → Option Pointer → Type 0
HasAudienceAt caller members w none = Unit
HasAudienceAt caller members w (some chatroom) =
    ((if str_eq (w.rooms chatroom).owner (w.users caller).name
        then (w.rooms chatroom).users
        else (remove_member (w.users caller).name (w.rooms chatroom)).users)
      ≡ keys members)
    × AreConnected w.users_map members

exit_room_owner :
    (w : World) (caller chatroom : Pointer) (members : OrderedMap Pointer)
    → str_eq (w.rooms chatroom).owner (w.users caller).name ≡ true
    → (w.rooms chatroom).users ≡ keys members
    → AreConnected w.users_map members
    → exit_room caller chatroom w ≡ some (tt, room_closed chatroom members w)
unfolding exit_room room_closed ◌>>=◌
exit_room_owner w caller chatroom members o k c =
    rw (o, branch◌then◌else◌)
      (>>=_step (tell_closed (w.rooms chatroom).users) _
        (ap (λ us. tell_closed us w) k ∙ tell_closed_lem members w c))

exit_room_guest :
    (w : World) (caller chatroom : Pointer) (members : OrderedMap Pointer)
    → str_eq (w.rooms chatroom).owner (w.users caller).name ≡ false
    → (remove_member (w.users caller).name (w.rooms chatroom)).users ≡ keys members
    → AreConnected w.users_map members
    → exit_room caller chatroom w ≡ some (tt, room_left caller chatroom members w)
unfolding exit_room room_left ◌>>=◌
exit_room_guest w caller chatroom members o k c =
    let me = w.users caller in
    let u = record w {
      rooms = update w.rooms chatroom (remove_member me.name (w.rooms chatroom));
    } in
    rw (o, branch◌then◌else◌)
      (ap (λ us. tell_exited me.name us u)
          (ap (λ (r : ChatRoom). r.users) (update_self w.rooms chatroom _) ∙ k)
        ∙ tell_exited_lem me.name members u c)

exit_room_lem :
    (w : World) (caller chatroom : Pointer) (members : OrderedMap Pointer)
    → HasAudienceAt caller members w (some chatroom)
    → exit_room caller chatroom w
      ≡ some (
        tt,
        if str_eq (w.rooms chatroom).owner (w.users caller).name
            then room_closed chatroom members w
            else room_left caller chatroom members w,
      )
exit_room_lem w caller chatroom members (k, c) =
    let all = (w.rooms chatroom).users in
    let others = (remove_member (w.users caller).name (w.rooms chatroom)).users in
    elim (Bool-cases (str_eq (w.rooms chatroom).owner (w.users caller).name)) [
      | inl e ↦ rw e (
          exit_room_owner w caller chatroom members e
            (subst (λ (b : Bool). (if b then all else others) ≡ keys members) e k) c)
      | inr e ↦ rw e (
          exit_room_guest w caller chatroom members e
            (subst (λ (b : Bool). (if b then all else others) ≡ keys members) e k) c)
    ]

module _ (w : World) (caller partner self : Pointer) (members : OrderedMap Pointer)
    (own : scan_users w.users (w.users caller).socket none w.users_map ≡ some caller)
    (with_partner : IsPaired w caller
      → find (session_of w caller).partner w.users_map ≡ some partner)
    (with_self : IsPaired w caller → find (w.users caller).name w.users_map ≡ some self) where
  chosen :
      (room : Option Pointer)
      → HasAudienceAt caller members w room
      → on_option room (close_session caller) (λ chatroom. exit_room caller chatroom) w
        ≡ some (tt, parted caller partner self members w room)
  unfolding on_option close_session
  chosen none h =
      close_session_lem w caller caller partner self (session_of w caller) own refl with_partner
        with_self
  chosen (some chatroom) h = exit_room_lem w caller chatroom members h

  disconnect_lem :
      HasAudienceAt caller members w (w.users caller).connected_to_chat_room
      → disconnect caller w
        ≡ some (
          tt,
          if (w.users caller).connection_status
              then parted caller partner self members w (w.users caller).connected_to_chat_room
              else w,
        )
  unfolding disconnect ◌>>=◌
  disconnect_lem h = elim (Bool-cases (w.users caller).connection_status) [
    | inl e ↦ rw (e, branch◌then◌else◌) (chosen (w.users caller).connected_to_chat_room h)
    | inr e ↦ rw (e, branch◌then◌else◌) refl
  ]

-- The world once the user has gone.
abbrev pub gone : Pointer → World → World
gone caller v = record v {
  users_map = erase (v.users caller).name v.users_map;
  sent = v.sent ++ command_packets (v.users caller).socket bye_bye_msg;
}

-- user_exit on all its branches, for a caller that its own socket finds, too. One whose flag is set
-- and that points to a room has it closed, if it is the owner: every user on the list is told, and
-- the room goes out of chatrooms_map. If it is another, remove_user is applied to the room with its
-- name, and the users that are then on the list are told the name. One that points to no room has
-- its session ended, by what in_session_with holds, as close_session has it, or is told that there
-- is none. One whose flag is not set parts from nothing. In each case it is then sent BYE_BYE_MSG
-- on its own socket, and goes out of users_map. This holds if all those of the room that it points
-- to who would be told are connected, and so are the two of a session that the sessions hold of it.
pub user_exit_lem :
    (w : World) (user caller partner self : Pointer) (members : OrderedMap Pointer)
    → scan_users w.users (w.users user).socket none w.users_map ≡ some caller
    → scan_users w.users (w.users caller).socket none w.users_map ≡ some caller
    → (IsPaired w caller → find (session_of w caller).partner w.users_map ≡ some partner)
    → (IsPaired w caller → find (w.users caller).name w.users_map ≡ some self)
    → HasAudienceAt caller members w (w.users caller).connected_to_chat_room
    → user_exit user w
      ≡ some (
        tt,
        gone caller (
            if (w.users caller).connection_status
            then parted caller partner self members w (w.users caller).connected_to_chat_room
            else w),
      )
unfolding user_exit ◌>>=◌
user_exit_lem w user caller partner self members s own p k h =
    >>=_step (current_user (w.users user).socket) _
      (current_user_lem (w.users user).socket w caller s)
    ∙ >>=_step (disconnect caller) _ (disconnect_lem w caller partner self members own p k h)
