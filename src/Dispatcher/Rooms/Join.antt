-- ===== src/Dispatcher/Rooms/Join.antt =====
-- join_chatroom, branch by branch (ServerSide/src/Dispatcher.cpp).
use networking_programming_p.Base.{
  ◌≡◌, sym, ap, ◌∙◌, Str, List, [], ◌∷◌, ◌++◌, append_assoc, append-nil, Option, none, some, true,
  All, length, Bool-cases, inl, inr, ◌==◌, if◌then◌else◌,
}
use networking_programming_p.Wire.{Arrival, read_msg}
use networking_programming_p.Address.{SockAddr, dest_ip_and_port}
use networking_programming_p.OrderedMap.{OrderedMap, find, insert, keys}
use networking_programming_p.Protocol.{new_user_to_chatroom, chatroom_list}
use networking_programming_p.Dispatcher.State.{Pointer, Socket, User, Packet, World, update}
use networking_programming_p.Dispatcher.Monad.{
  ◌>>=◌, branch◌then◌else◌, on_option, read, command_packets, msg_packets, user_at,
}
use networking_programming_p.Dispatcher.Steps.{
  >>=_step, resent, send, consumed, user_at_lem, read_lem, current_user_lem,
}
use networking_programming_p.Dispatcher.Caller.{scan_users, current_user}
use networking_programming_p.Dispatcher.Members.{add_member}
use networking_programming_p.Dispatcher.Sessions.{address_of}
use networking_programming_p.Dispatcher.Rooms.{
  announce, announce_to, send_members, enter_room, join_chatroom, create_chatroom,
}
use networking_programming_p.Dispatcher.Rooms.Create.{created, create_chatroom_lem}

-- The members of a room with their users, each of them connected.
abbrev pub AreConnected : OrderedMap Pointer → OrderedMap Pointer → Type 0
AreConnected m members = All (λ (e : Str × Pointer). find e.0 m ≡ some e.1) members

-- What one member is sent of a newcomer.
abbrev pub newcomer_packets : Socket → Str → Str → List Packet
newcomer_packets s name text =
    if s == 0
    then []
    else command_packets s new_user_to_chatroom ++ (msg_packets s name ++ msg_packets s text)

-- What the members are sent of a newcomer.
abbrev pub announce_packets : Str → Str → (Pointer → User) → OrderedMap Pointer → List Packet
announce_packets name text users [] = []
announce_packets name text users ((u, p) ∷ members) =
    newcomer_packets (users p).socket name text ++ announce_packets name text users members

-- What a newcomer is sent of the members.
abbrev pub members_packets :
    Socket → (Pointer → User) → (Socket → SockAddr) → OrderedMap Pointer → List Packet
members_packets sock users address [] = []
members_packets sock users address ((u, p) ∷ members) =
    msg_packets sock u
    ++ (msg_packets sock (dest_ip_and_port (address (users p).socket))
        ++ members_packets sock users address members)

announce_to_lem :
    (s : Socket) (name : Str) (sock : Socket) (w : World)
    → announce_to s name sock w
      ≡ some (tt, send (newcomer_packets s name (dest_ip_and_port (w.address sock))) w)
unfolding announce_to address_of ◌>>=◌
announce_to_lem s name sock w = elim (Bool-cases (s == 0)) [
  | inl e ↦ rw (e, branch◌then◌else◌) (resent w (sym (append-nil w.sent)))
  | inr e ↦ rw (e, branch◌then◌else◌) (resent w (simp append_assoc))
]

announce_lem :
    (name : Str) (sock : Socket) (members : OrderedMap Pointer) (w : World)
    → AreConnected w.users_map members
    → announce name sock (keys members) w
      ≡ some
          (tt, send (announce_packets name (dest_ip_and_port (w.address sock)) w.users members) w)
unfolding announce ◌>>=◌
announce_lem name sock [] w c = resent w (sym (append-nil w.sent))
announce_lem name sock ((u, p) ∷ members) w c =
    >>=_step (user_at u) _ (user_at_lem u w p c.0)
    ∙ >>=_step (announce_to (w.users p).socket name sock) (λ _. announce name sock (keys members))
        (announce_to_lem (w.users p).socket name sock w)
    ∙ announce_lem name sock members (send (newcomer_packets (w.users p).socket name text) w) c.1
    ∙ resent w (
        append_assoc w.sent (newcomer_packets (w.users p).socket name text)
          (announce_packets name text w.users members))
  where
    text : Str
    text = dest_ip_and_port (w.address sock)

send_members_lem :
    (sock : Socket) (members : OrderedMap Pointer) (w : World)
    → AreConnected w.users_map members
    → send_members sock (keys members) w
      ≡ some (tt, send (members_packets sock w.users w.address members) w)
unfolding send_members address_of ◌>>=◌
send_members_lem sock [] w c = resent w (sym (append-nil w.sent))
send_members_lem sock ((u, p) ∷ members) w c =
    >>=_step (user_at u) _ (user_at_lem u (send (msg_packets sock u) w) p c.0)
    ∙ send_members_lem sock members (send theirs (send (msg_packets sock u) w)) c.1
    ∙ resent w (
        append_assoc (w.sent ++ msg_packets sock u) theirs rest
        ∙ append_assoc w.sent (msg_packets sock u) (theirs ++ rest))
  where
    theirs : List Packet
    theirs = msg_packets sock (dest_ip_and_port (w.address (w.users p).socket))

    rest : List Packet
    rest = members_packets sock w.users w.address members

-- What a newcomer is sent of the room.
abbrev pub room_packets : Socket → World → OrderedMap Pointer → List Packet
room_packets sock w members =
    command_packets sock chatroom_list
    ++ (command_packets sock (length (keys members))
        ++ members_packets sock w.users w.address members)

-- The world after a user has entered a room with these members.
unfoldable pub entered : Socket → Pointer → Pointer → OrderedMap Pointer → World → World
entered sock caller chatroom members w =
    let me = w.users caller in
    let news = announce_packets me.name (dest_ip_and_port (w.address me.socket)) w.users members in
    record w {
      users =
          update w.users caller
            (record me { connection_status = true; connected_to_chat_room = some chatroom });
      rooms = update w.rooms chatroom (add_member me.name (w.rooms chatroom));
      users_map = insert me.name caller w.users_map;
      sent = w.sent ++ (news ++ room_packets sock w members);
    }

enter_room_lem :
    (sock : Socket) (caller chatroom : Pointer) (members : OrderedMap Pointer) (w : World)
    → (w.rooms chatroom).users ≡ keys members
    → AreConnected w.users_map members
    → enter_room sock caller chatroom w ≡ some (tt, entered sock caller chatroom members w)
unfolding enter_room entered ◌>>=◌
enter_room_lem sock caller chatroom members w k c = simp k (
    >>=_step (announce me.name me.socket (keys members)) _
      (announce_lem me.name me.socket members w c)
    ∙ >>=_step (send_members sock (keys members)) _ (send_members_lem sock members u c)
    ∙ ap
        (λ (p : List Packet).
          some (tt, record (entered sock caller chatroom members w) { sent = p }))
        (simp append_assoc))
  where
    me : User
    me = w.users caller

    u : World
    u = send (command_packets sock (length (keys members))) (
        send (command_packets sock chatroom_list) (
          send (announce_packets me.name (dest_ip_and_port (w.address me.socket)) w.users members)
            w))

-- The room of that name, if there is one, has these members, all of them connected.
abbrev pub HasMembersAt : OrderedMap Pointer → World → Option Pointer → Type 0
HasMembersAt members w none = Unit
HasMembersAt members w (some chatroom) =
    ((w.rooms chatroom).users ≡ keys members) × AreConnected w.users_map members

abbrev pub HasMembers : Str → OrderedMap Pointer → World → Type 0
HasMembers name members w = HasMembersAt members w (find name w.chatrooms_map)

-- The world after join_chatroom, by what the map of rooms has under the name.
abbrev pub joined : Pointer → Pointer → Str → OrderedMap Pointer → World → Option Pointer → World
joined user caller name members w none = created user caller name w
joined user caller name members w (some chatroom) =
    entered (w.users user).socket caller chatroom members w

scan_users-found :
    (users : Pointer → User) (sock : Socket) (last p : Pointer) (m : OrderedMap Pointer)
    → scan_users users sock none m ≡ some p
    → scan_users users sock (some last) m ≡ some p
unfolding scan_users
scan_users-found users sock last p [] h = cc
scan_users-found users sock last p ((n, q) ∷ m) h = h

-- join_chatroom for a caller that is found, on both branches. If there is a room of the name and
-- all its members are connected, each member is told the caller's name and address, the caller is
-- sent the names and addresses of the members, ChatRoom::add_user is applied to the room with the
-- caller's name, and the caller points to the room with its flag set; if there is none, the caller
-- gets a new room.
pub join_chatroom_lem :
    (w : World) (user caller : Pointer) (name : Str) (rest : List Arrival)
    (members : OrderedMap Pointer)
    → read_msg (w.inbox (w.users user).socket) ≡ some (name, rest)
    → scan_users w.users (w.users user).socket none w.users_map ≡ some caller
    → HasMembers name members w
    → join_chatroom user w
      ≡ some (
        tt,
        joined user caller name members
            (consumed (w.users user).socket rest w)
            (find name w.chatrooms_map),
      )
unfolding join_chatroom ◌>>=◌
join_chatroom_lem w user caller name rest members r s h =
    >>=_step (read sock) _ (read_lem sock w name rest r)
    ∙ >>=_step (current_user sock) _ (current_user_lem sock v caller s)
    ∙ chosen (find name w.chatrooms_map) h
  where
    sock : Socket
    sock = (w.users user).socket

    v : World
    v = consumed sock rest w

    chosen :
        (found : Option Pointer)
        → HasMembersAt members w found
        → on_option found
            (create_chatroom user name)
            (λ chatroom. enter_room sock caller chatroom)
            v
          ≡ some (tt, joined user caller name members v found)
    chosen none u =
        create_chatroom_lem user caller name v
          (scan_users-found w.users sock user caller w.users_map s)
    chosen (some chatroom) (k, c) = enter_room_lem sock caller chatroom members v k c
