-- ===== src/Dispatcher/Rooms/JoinLeave.antt =====
-- A room that is entered and left again (ServerSide/src/Dispatcher.cpp, join_chatroom and
-- leave_chatroom).
use networking_programming_p.Base.{
  ◌≡◌, refl, sym, ap, subst, ◌∙◌, Str, List, [], ◌∷◌, ◌++◌, Option, none, some, Bool, true, false,
  arith, str_eq, if◌then◌else◌,
}
use networking_programming_p.Wire.{Arrival, read_msg}
use networking_programming_p.Address.{dest_ip_and_port}
use networking_programming_p.OrderedMap.{OrderedMap, find, keys}
use networking_programming_p.OrderedMap.Order.{IsOrdered, insert-find}
use networking_programming_p.Protocol.{connection_error}
use networking_programming_p.Dispatcher.State.{
  Pointer, Socket, User, ChatRoom, Packet, World, update,
}
use networking_programming_p.Dispatcher.Monad.{◌>>◌, command_packets}
use networking_programming_p.Dispatcher.Steps.{>>=_step, send, consumed, update_self, scan_users-eq}
use networking_programming_p.Dispatcher.Caller.{scan_users}
use networking_programming_p.Dispatcher.Members.{listed, add_member, remove_member}
use networking_programming_p.Dispatcher.Members.Laws.{add_member_lem, remove_member-add_member}
use networking_programming_p.Dispatcher.Rooms.{join_chatroom, leave_chatroom}
use networking_programming_p.Dispatcher.Rooms.Join.{
  AreConnected, HasMembersAt, announce_packets, room_packets, entered, joined, join_chatroom_lem,
}
use networking_programming_p.Dispatcher.Rooms.Leave.{
  closed, departed, left, left_packets, leave_chatroom_lem,
}

-- A member added at the end.
abbrev pub with_member : OrderedMap Pointer → Str → Pointer → OrderedMap Pointer
with_member members name p = members ++ ((name, p) ∷ [])

keys-append :
    (members : OrderedMap Pointer) (name : Str) (p : Pointer)
    → keys (with_member members name p) ≡ keys members ++ (name ∷ [])
keys-append [] name p = refl
keys-append ((u, q) ∷ members) name p = ap (λ us. u ∷ us) (keys-append members name p)

AreConnected-append :
    (m members : OrderedMap Pointer) (name : Str) (p : Pointer)
    → AreConnected m members
    → find name m ≡ some p
    → AreConnected m (with_member members name p)
AreConnected-append m [] name p c f = (f, tt)
AreConnected-append m ((u, q) ∷ members) name p c f =
    (c.0, AreConnected-append m members name p c.1 f)

left_packets-eq :
    (name : Str) (f g : Pointer → User) (members : OrderedMap Pointer)
    → ((p : Pointer) → (f p).socket ≡ (g p).socket)
    → left_packets name f members ≡ left_packets name g members
left_packets-eq name f g [] h = refl
left_packets-eq name f g ((u, p) ∷ members) h = rw (h p, left_packets-eq name f g members h)

-- A connected user that can enter a room of others and is not its owner.
pub record IsGuest (w : World) (caller chatroom : Pointer) (members : OrderedMap Pointer)
    : Type 0 where
  pub known : find (w.users caller).name w.users_map ≡ some caller
  pub ordered : IsOrdered w.users_map
  pub members_are : (w.rooms chatroom).users ≡ keys members
  pub connected : AreConnected w.users_map members
  pub not_owner : str_eq (w.rooms chatroom).owner (w.users caller).name ≡ false
  pub not_named : listed (w.rooms chatroom).name (w.rooms chatroom).users ≡ false
  pub not_listed : listed (w.users caller).name (w.rooms chatroom).users ≡ false

module _ (sock : Socket) (w : World) (caller chatroom : Pointer) (members : OrderedMap Pointer)
    (guest : IsGuest w caller chatroom members) where
  abbrev inside : World
  inside = entered sock caller chatroom members w

  abbrev me : User
  me = w.users caller

  all_members : OrderedMap Pointer
  all_members = with_member members me.name caller

  entered-user :
      inside.users caller
      ≡ record me { connection_status = true; connected_to_chat_room = some chatroom }
  unfolding entered
  entered-user = update_self w.users caller _

  entered-socket : (p : Pointer) → (inside.users p).socket ≡ (w.users p).socket
  unfolding entered update
  entered-socket p = ground arith

  entered-room : inside.rooms chatroom ≡ add_member me.name (w.rooms chatroom)
  unfolding entered
  entered-room = update_self w.rooms chatroom _

  entered-users_map : inside.users_map ≡ w.users_map
  unfolding entered
  entered-users_map = insert-find me.name caller w.users_map guest.ordered guest.known

  entered-name : (inside.users caller).name ≡ me.name
  entered-name = ap (λ (u : User). u.name) entered-user

  added_room :
      inside.rooms chatroom
      ≡ record (w.rooms chatroom) { users = (w.rooms chatroom).users ++ (me.name ∷ []) }
  added_room = entered-room ∙ add_member_lem me.name (w.rooms chatroom) guest.not_named

  entered-HasMembersAt :
      HasMembersAt all_members inside (inside.users caller).connected_to_chat_room
  unfolding all_members
  entered-HasMembersAt =
      subst (HasMembersAt (with_member members me.name caller) inside)
        (sym (ap (λ (u : User). u.connected_to_chat_room) entered-user))
        (
          ap (λ (r : ChatRoom). r.users) added_room
              ∙ ap (λ (us : List Str). us ++ (me.name ∷ [])) guest.members_are
              ∙ sym (keys-append members me.name caller),
          subst (λ m. AreConnected m (with_member members me.name caller)) (sym entered-users_map)
              (AreConnected-append w.users_map members me.name caller guest.connected guest.known),
        )

  entered-owner : str_eq (inside.rooms chatroom).owner (inside.users caller).name ≡ false
  entered-owner =
      ap (λ (r : ChatRoom). str_eq r.owner (inside.users caller).name) added_room
      ∙ ap (str_eq (w.rooms chatroom).owner) entered-name
      ∙ guest.not_owner

  leave-entered :
      (leaving : Pointer)
      → scan_users w.users (w.users leaving).socket none w.users_map ≡ some caller
      → leave_chatroom leaving inside ≡ some (tt, left caller chatroom all_members inside)
  leave-entered leaving s =
      leave_chatroom_lem inside leaving caller all_members found entered-HasMembersAt
      ∙ ap outcome (ap (λ (u : User). (u.connection_status, u.connected_to_chat_room)) entered-user)
      ∙ ap
          (λ (b : Bool). some (
            tt,
            if b
                then closed caller chatroom all_members inside
                else left caller chatroom all_members inside,
          ))
          entered-owner
    where
      found :
          scan_users inside.users (inside.users leaving).socket none inside.users_map ≡ some caller
      found =
          ap (λ (k : Socket). scan_users inside.users k none inside.users_map)
            (entered-socket leaving)
          ∙ ap (scan_users inside.users (w.users leaving).socket none) entered-users_map
          ∙ scan_users-eq inside.users w.users (w.users leaving).socket none w.users_map
              entered-socket
          ∙ s

      outcome : Bool × Option Pointer → Option (Unit {0} × World)
      outcome (flag, room) = some (
        tt,
        if flag
            then departed leaving caller all_members inside room
            else send (command_packets (inside.users leaving).socket connection_error) inside,
      )

  left-room : (left caller chatroom all_members inside).rooms chatroom ≡ w.rooms chatroom
  unfolding left
  left-room =
      update_self inside.rooms chatroom _
      ∙ ap (λ (n : Str). remove_member n (inside.rooms chatroom)) entered-name
      ∙ ap (remove_member me.name) entered-room
      ∙ remove_member-add_member me.name (w.rooms chatroom) guest.not_named guest.not_listed

  left-user :
      (left caller chatroom all_members inside).users caller
      ≡ record me { connection_status = false; connected_to_chat_room = none }
  unfolding left
  left-user =
      update_self inside.users caller _
      ∙ ap (λ (u : User). record u { connection_status = false; connected_to_chat_room = none })
          entered-user

  left-sent :
      (left caller chatroom all_members inside).sent
      ≡ inside.sent ++ left_packets me.name w.users all_members
  unfolding left
  left-sent =
      ap (λ (n : Str). inside.sent ++ left_packets n inside.users all_members) entered-name
      ∙ ap (λ (p : List Packet). inside.sent ++ p)
          (left_packets-eq me.name inside.users w.users all_members entered-socket)

-- A user that is no member of a room enters it and leaves it again. When the user and the members
-- are connected, the user is not the room's owner, and neither it nor the room's name is in the
-- room's list, then both requests succeed: the room, the maps of users and of rooms are as before,
-- the user is in no room, the members that have a socket were told of it on both occasions, and
-- the user was sent the members on the first and its own name on the second.
pub leave_chatroom-join_chatroom :
    (w : World) (user leaving caller chatroom : Pointer) (name : Str) (rest : List Arrival)
    (members : OrderedMap Pointer)
    → read_msg (w.inbox (w.users user).socket) ≡ some (name, rest)
    → scan_users w.users (w.users user).socket none w.users_map ≡ some caller
    → scan_users w.users (w.users leaving).socket none w.users_map ≡ some caller
    → find name w.chatrooms_map ≡ some chatroom
    → IsGuest w caller chatroom members
    → (v : World) × ((join_chatroom user >> leave_chatroom leaving) w ≡ some (tt, v))
      × (v.rooms chatroom ≡ w.rooms chatroom)
      × (v.users_map ≡ w.users_map)
      × (v.chatrooms_map ≡ w.chatrooms_map)
      × (v.users caller
          ≡ record (w.users caller) { connection_status = false; connected_to_chat_room = none })
      × (v.sent
          ≡ (w.sent
              ++ (announce_packets
                    (w.users caller).name
                    (dest_ip_and_port (w.address (w.users caller).socket))
                    w.users
                    members
                  ++ room_packets (w.users user).socket w members))
            ++ left_packets
                (w.users caller).name
                w.users
                (with_member members (w.users caller).name caller))
unfolding left entered all_members
leave_chatroom-join_chatroom w user leaving caller chatroom name rest members r s t f guest = (
  left caller chatroom (all_members sock u caller chatroom members guest')
      (inside sock u caller chatroom members guest'),
  >>=_step (join_chatroom user) (λ _. leave_chatroom leaving) joining
      ∙ leave-entered sock u caller chatroom members guest' leaving t,
  left-room sock u caller chatroom members guest',
  entered-users_map sock u caller chatroom members guest',
  refl,
  left-user sock u caller chatroom members guest',
  left-sent sock u caller chatroom members guest',
)
  where
    sock : Socket
    sock = (w.users user).socket

    u : World
    u = consumed sock rest w

    guest' : IsGuest u caller chatroom members
    guest' = record {
      known = guest.known;
      ordered = guest.ordered;
      members_are = guest.members_are;
      connected = guest.connected;
      not_owner = guest.not_owner;
      not_named = guest.not_named;
      not_listed = guest.not_listed;
    }

    joining : join_chatroom user w ≡ some (tt, entered sock caller chatroom members u)
    joining =
        join_chatroom_lem w user caller name rest members r s
          (subst (HasMembersAt members w) (sym f) (guest.members_are, guest.connected))
        ∙ ap (λ (o : Option Pointer). some (tt, joined user caller name members u o)) f
