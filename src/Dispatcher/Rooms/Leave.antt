-- ===== src/Dispatcher/Rooms/Leave.antt =====
-- leave_chatroom, branch by branch (ServerSide/src/Dispatcher.cpp).
use networking_programming_p.Base.{
  ◌≡◌, refl, sym, ap, ◌∙◌, Str, List, [], ◌∷◌, ◌++◌, append_assoc, append-nil, Option, none, some,
  false, arith, Bool-cases, inl, inr, ◌==◌, if◌then◌else◌, str_eq,
}
use networking_programming_p.OrderedMap.{OrderedMap, erase, keys}
use networking_programming_p.Protocol.{
  user_has_left_chatroom, chatroom_was_closed, connection_error, open_session_error2,
}
use networking_programming_p.Dispatcher.State.{
  Pointer, Socket, User, ChatRoom, Packet, World, update,
}
use networking_programming_p.Dispatcher.Monad.{
  M, ◌>>=◌, ◌>>◌, branch◌then◌else◌, on_option, command_packets, msg_packets, user_at,
  write_command, modify, store_user, store_room,
}
use networking_programming_p.Dispatcher.Steps.{
  >>=_step, resent, send, user_at_lem, current_user_lem,
}
use networking_programming_p.Dispatcher.Caller.{scan_users, current_user}
use networking_programming_p.Dispatcher.Members.{remove_member}
use networking_programming_p.Dispatcher.Rooms.{
  tell_left_to, tell_left, dismiss, leave_room, leave_chatroom,
}
use networking_programming_p.Dispatcher.Rooms.Join.{AreConnected, HasMembersAt}

-- A user that is in no room.
abbrev apart : User → User
apart u = record u { connection_status = false; connected_to_chat_room = none }

-- What one member is sent when another leaves.
abbrev pub farewell_packets : Socket → Str → List Packet
farewell_packets s name =
    if s == 0 then [] else command_packets s user_has_left_chatroom ++ msg_packets s name

abbrev pub left_packets : Str → (Pointer → User) → OrderedMap Pointer → List Packet
left_packets name users [] = []
left_packets name users ((u, p) ∷ members) =
    farewell_packets (users p).socket name ++ left_packets name users members

-- What the members are sent when the owner leaves, each before its own fields change.
abbrev pub closed_packets : (Pointer → User) → OrderedMap Pointer → List Packet
closed_packets users [] = []
closed_packets users ((u, p) ∷ members) =
    (if (users p).socket == 0 then [] else command_packets (users p).socket chatroom_was_closed)
    ++ closed_packets users members

-- The users once the members are disconnected from the room.
abbrev pub dismissed : (Pointer → User) → OrderedMap Pointer → Pointer → User
dismissed users [] = users
dismissed users ((u, p) ∷ members) = dismissed (update users p (apart (users p))) members

tell_left_to_lem :
    (s : Socket) (name : Str) (w : World)
    → tell_left_to s name w ≡ some (tt, send (farewell_packets s name) w)
unfolding tell_left_to ◌>>=◌
tell_left_to_lem s name w = elim (Bool-cases (s == 0)) [
  | inl e ↦ rw (e, branch◌then◌else◌) (resent w (sym (append-nil w.sent)))
  | inr e ↦ rw (e, branch◌then◌else◌) (resent w (simp append_assoc))
]

tell_left_lem :
    (name : Str) (members : OrderedMap Pointer) (w : World)
    → AreConnected w.users_map members
    → tell_left name (keys members) w ≡ some (tt, send (left_packets name w.users members) w)
unfolding tell_left ◌>>=◌
tell_left_lem name [] w c = resent w (sym (append-nil w.sent))
tell_left_lem name ((u, p) ∷ members) w c =
    >>=_step (user_at u) _ (user_at_lem u w p c.0)
    ∙ >>=_step (tell_left_to (w.users p).socket name) (λ _. tell_left name (keys members))
        (tell_left_to_lem (w.users p).socket name w)
    ∙ tell_left_lem name members (send (farewell_packets (w.users p).socket name) w) c.1
    ∙ resent w (
        append_assoc w.sent (farewell_packets (w.users p).socket name)
          (left_packets name w.users members))

socket-apart :
    (users : Pointer → User) (q p : Pointer)
    → (update users q (apart (users q)) p).socket ≡ (users p).socket
unfolding update
socket-apart users q p = ground arith

closed_packets-update :
    (users : Pointer → User) (q : Pointer) (members : OrderedMap Pointer)
    → closed_packets (update users q (apart (users q))) members ≡ closed_packets users members
closed_packets-update users q [] = refl
closed_packets-update users q ((u, p) ∷ members) =
    rw (socket-apart users q p, closed_packets-update users q members)

dismiss_lem :
    (members : OrderedMap Pointer) (w : World)
    → AreConnected w.users_map members
    → dismiss (keys members) w
      ≡ some (
        tt,
        record w {
          users = dismissed w.users members;
          sent = w.sent ++ closed_packets w.users members;
        },
      )
unfolding dismiss ◌>>=◌
dismiss_lem [] w c = resent w (sym (append-nil w.sent))
dismiss_lem ((u, p) ∷ members) w c =
    >>=_step (user_at u) _ (user_at_lem u w p c.0) ∙ elim (Bool-cases ((w.users p).socket == 0)) [
      | inl e ↦ rw (e, branch◌then◌else◌) (dismiss_lem members (after w) c.1 ∙ ends w.sent)
      | inr e ↦
          rw (e, branch◌then◌else◌)
            (dismiss_lem members
                (after (send (command_packets (w.users p).socket chatroom_was_closed) w)) c.1
              ∙ ends (w.sent ++ command_packets (w.users p).socket chatroom_was_closed)
              ∙ ap result (
                  append_assoc w.sent (command_packets (w.users p).socket chatroom_was_closed)
                    rest))
    ]
  where
    users : Pointer → User
    users = update w.users p (apart (w.users p))

    after : World → World
    after v = record v { users = users }

    rest : List Packet
    rest = closed_packets w.users members

    result : List Packet → Option (Unit {0} × World)
    result packets = some (tt, record w { users = dismissed users members; sent = packets })

    ends :
        (sent : List Packet) → result (sent ++ closed_packets users members) ≡ result (sent ++ rest)
    ends sent =
        ap (λ (packets : List Packet). result (sent ++ packets))
          (closed_packets-update w.users p members)

-- The world after a member that is not the owner has left.
unfoldable pub left : Pointer → Pointer → OrderedMap Pointer → World → World
left caller chatroom members w =
    let me = w.users caller in
    record w {
      users = update w.users caller (apart me);
      rooms = update w.rooms chatroom (remove_member me.name (w.rooms chatroom));
      sent = w.sent ++ left_packets me.name w.users members;
    }

-- The world after the owner has left.
unfoldable pub closed : Pointer → Pointer → OrderedMap Pointer → World → World
closed caller chatroom members w =
    let room = w.rooms chatroom in
    record w {
      users = dismissed w.users members;
      rooms = update w.rooms chatroom (remove_member (w.users caller).name room);
      chatrooms_map = erase room.name w.chatrooms_map;
      sent = w.sent ++ closed_packets w.users members;
    }

leave_room_lem :
    (caller chatroom : Pointer) (members : OrderedMap Pointer) (w : World)
    → (w.rooms chatroom).users ≡ keys members
    → AreConnected w.users_map members
    → leave_room caller chatroom w
      ≡ some (
        tt,
        if str_eq (w.rooms chatroom).owner (w.users caller).name
            then closed caller chatroom members w
            else left caller chatroom members w,
      )
unfolding leave_room left closed ◌>>=◌
leave_room_lem caller chatroom members w k c = elim (Bool-cases (str_eq room.owner me.name)) [
  | inl e ↦ rw e (
      >>=_step (dismiss room.users >> forget) put (
        >>=_step (dismiss room.users) (λ _. forget)
          (ap (λ us. dismiss us w) k ∙ dismiss_lem members w c)))
  | inr e ↦ rw e (
      >>=_step (tell_left me.name room.users >> free) put (
        >>=_step (tell_left me.name room.users) (λ _. free)
          (ap (λ us. tell_left me.name us w) k ∙ tell_left_lem me.name members w c)))
]
  where
    me : User
    me = w.users caller

    room : ChatRoom
    room = w.rooms chatroom

    forget : M (Unit {0})
    forget = modify (λ v. record v { chatrooms_map = erase room.name v.chatrooms_map })

    free : M (Unit {0})
    free =
        store_user caller
          (λ u. record u { connection_status = false; connected_to_chat_room = none })

    put : Unit {0} → M (Unit {0})
    put a = store_room chatroom (remove_member me.name)

-- The world after a user with its flag set has left the room that it points to, if any.
abbrev pub departed : Pointer → Pointer → OrderedMap Pointer → World → Option Pointer → World
departed user caller members w none =
    send (command_packets (w.users user).socket open_session_error2) w
departed user caller members w (some chatroom) =
    if str_eq (w.rooms chatroom).owner (w.users caller).name
    then closed caller chatroom members w
    else left caller chatroom members w

-- leave_chatroom for a caller that is found, on all its branches, where the members of its room,
-- if it points to one, are connected. A caller whose flag is unset is sent CONNECTION_ERROR, and
-- one that points to no room OPEN_SESSION_ERROR2. If the owner leaves, each member is told and
-- disconnected, and the room goes out of the map; if another leaves, each member is told its name,
-- and only the caller is disconnected. In either case ChatRoom::remove_user is applied to the room
-- with the caller's name.
pub leave_chatroom_lem :
    (w : World) (user caller : Pointer) (members : OrderedMap Pointer)
    → scan_users w.users (w.users user).socket none w.users_map ≡ some caller
    → HasMembersAt members w (w.users caller).connected_to_chat_room
    → leave_chatroom user w
      ≡ some (
        tt,
        if (w.users caller).connection_status
            then departed user caller members w (w.users caller).connected_to_chat_room
            else send (command_packets (w.users user).socket connection_error) w,
      )
unfolding leave_chatroom ◌>>=◌
leave_chatroom_lem w user caller members s h =
    >>=_step (current_user sock) _ (current_user_lem sock w caller s)
    ∙ elim (Bool-cases (w.users caller).connection_status) [
      | inl e ↦ rw (e, branch◌then◌else◌) (chosen (w.users caller).connected_to_chat_room h)
      | inr e ↦ rw (e, branch◌then◌else◌)
    ]
  where
    sock : Socket
    sock = (w.users user).socket

    chosen :
        (room : Option Pointer)
        → HasMembersAt members w room
        → on_option room
            (write_command sock open_session_error2)
            (λ chatroom. leave_room caller chatroom)
            w
          ≡ some (tt, departed user caller members w room)
    chosen none u = refl
    chosen (some chatroom) (k, c) = leave_room_lem caller chatroom members w k c
