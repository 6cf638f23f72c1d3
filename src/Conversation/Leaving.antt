-- ===== src/Conversation/Leaving.antt =====
-- A user leaves a chat room of another, from the request to what the clients make of the answer:
-- Client::closeSession (ClientSide/src/Client.cpp), a round of Dispatcher::run
-- (ServerSide/src/Dispatcher.cpp, leave_chatroom), and a round of Client::run.
use networking_programming_p.Base.{
  ℕ, ◌≡◌, refl, sym, ap, subst, ◌∙◌, Str, List, [], ◌∷◌, ◌++◌, append-nil, Option, none, some, Bool,
  true, false, arith, drop-append, All, ◌==◌, str_eq, if◌then◌else◌,
}
use networking_programming_p.Wire.{Arrival, chunk, leftover, read_command, command_bytes}
use networking_programming_p.Wire.RoundTrip.{read_command-command_bytes}
use networking_programming_p.OrderedMap.{OrderedMap, keys}
use networking_programming_p.Protocol.{
  leave_chatroom as leave_command, close_session_with_user, connection_error,
}
use networking_programming_p.Dispatcher.State.{Pointer, Socket, User, Packet, World}
use networking_programming_p.Dispatcher.Monad.{◌>>=◌, command_packets}
use networking_programming_p.Dispatcher.Caller.{scan_users}
use networking_programming_p.Dispatcher.Steps.{send}
use networking_programming_p.Dispatcher.Consistency.{IsConsistent}
use networking_programming_p.Dispatcher.Rooms.{leave_chatroom}
use networking_programming_p.Dispatcher.Rooms.Join.{AreConnected, HasMembersAt}
use networking_programming_p.Dispatcher.Rooms.Leave.{
  farewell_packets, left_packets, left, closed, departed, leave_chatroom_lem,
}
use networking_programming_p.Dispatcher.Loop.{handle}
use networking_programming_p.Dispatcher.Loop
use networking_programming_p.Dispatcher.Taken.{
  taken, round-handle, taken-caller, taken-members, taken-found,
}
use networking_programming_p.Client.{Partner, Client, write_command}
use networking_programming_p.Client.Requests.{close_session}
use networking_programming_p.Client.Run.{round}
use networking_programming_p.Client.Delivered.{delivered, IsReadable}
use networking_programming_p.Client.Partners.{LacksPartner}
use networking_programming_p.Client.Departures.{
  in_no_room, round-farewell_packets, round-own_farewell,
}
use networking_programming_p.Conversation.{news, hearing}
use networking_programming_p.Conversation.Audience.{AreElsewhere, delivered-left_member}

pub news-close_session :
    (c : Client) (rest : List ℕ)
    → c.is_in_session ≡ true
    → c.is_in_chat_room ≡ true
    → news c (close_session c) ++ rest ≡ command_bytes leave_command ++ rest
unfolding close_session
news-close_session c rest s r =
    ap (λ (b : Bool). sending b c.is_in_chat_room) s
    ∙ ap (sending true) r
    ∙ simp (drop-append, append-nil)
  where
    sending : Bool → Bool → List ℕ
    sending in_session in_room =
        news c (
          if in_session
          then if in_room
            then write_command leave_command c
            else record (write_command close_session_with_user c) { is_in_session = false }
          else c)
        ++ rest

-- A request to leave a room: the caller is in the room, does not own it, and the members are
-- connected.
pub record CanLeave (w : World) (sock : Socket) (caller chatroom : Pointer)
    (members : OrderedMap Pointer) : Type 0 where
  pub consistent : IsConsistent w
  pub connected : (sock == 0) ≡ false
  pub caller_is : scan_users w.users sock none w.users_map ≡ some caller
  pub flag : (w.users caller).connection_status ≡ true
  pub room_is : (w.users caller).connected_to_chat_room ≡ some chatroom
  pub not_owner : str_eq (w.rooms chatroom).owner (w.users caller).name ≡ false
  pub members_are : (w.rooms chatroom).users ≡ keys members
  pub members_connected : AreConnected w.users_map members
  pub caller_readable : IsReadable (w.users caller).name

-- One of the members, on a socket that is no other member's.
pub record IsHeardAt (w : World) (members before : OrderedMap Pointer) (member : Str × Pointer)
    (after : OrderedMap Pointer) : Type 0 where
  pub is_socket : ((w.users member.1).socket == 0) ≡ false
  pub is_member : members ≡ before ++ (member ∷ after)
  pub alone_before : AreElsewhere (w.users member.1).socket w.users before
  pub alone_after : AreElsewhere (w.users member.1).socket w.users after

pub heard_by :
    (name : Str) (w : World) (members before : OrderedMap Pointer) (u : Str) (p : Pointer)
    (after : OrderedMap Pointer)
    → IsHeardAt w members before (u, p) after
    → delivered (w.users p).socket (left_packets name w.users members)
      ≡ delivered (w.users p).socket (farewell_packets (w.users p).socket name) ++ []
heard_by name w members before u p after h =
    ap (λ m. delivered (w.users p).socket (left_packets name w.users m)) h.is_member
    ∙ delivered-left_member name u w.users before after p h.alone_before h.alone_after

left_packets-eq :
    (name : Str) (f g : Pointer → User) (members : OrderedMap Pointer)
    → All (λ (e : Str × Pointer). f e.1 ≡ g e.1) members
    → left_packets name f members ≡ left_packets name g members
left_packets-eq name f g [] a = refl
left_packets-eq name f g ((u, p) ∷ members) a = rw (a.0, left_packets-eq name f g members a.1) refl

module _ (w : World) (sock : Socket) (caller chatroom : Pointer) (members : OrderedMap Pointer)
    (rest : List ℕ) (q : List Arrival) (can : CanLeave w sock caller chatroom members) where
  abbrev v : World
  v = taken sock (leftover rest q) w

  caller_eq : v.users caller ≡ w.users caller
  caller_eq = taken-caller sock (leftover rest q) w caller can.consistent can.caller_is

  unfoldable pub outside : World
  outside = left caller chatroom members v

  room_eq : (v.users caller).connected_to_chat_room ≡ some chatroom
  room_eq = ap (λ (u : User). u.connected_to_chat_room) caller_eq ∙ can.room_is

  room_members : HasMembersAt members v (some chatroom)
  unfolding taken
  room_members = (can.members_are, can.members_connected)

  owner_eq : str_eq (v.rooms chatroom).owner (v.users caller).name ≡ false
  unfolding taken
  owner_eq = ap (λ (u : User). str_eq (w.rooms chatroom).owner u.name) caller_eq ∙ can.not_owner

  leaving : leave_chatroom w.next_user v ≡ some (tt, outside)
  unfolding outside
  leaving =
      leave_chatroom_lem v w.next_user caller members
        (taken-found sock (leftover rest q) w caller can.consistent can.caller_is)
        (subst (HasMembersAt members v) (sym room_eq) room_members)
      ∙ ap (λ (b : Bool). outcome b (v.users caller).connected_to_chat_room)
          (ap (λ (u : User). u.connection_status) caller_eq ∙ can.flag)
      ∙ ap (outcome true) room_eq
      ∙ ap
          (λ (b : Bool).
            some
              (tt, if b then closed caller chatroom members v else left caller chatroom members v))
          owner_eq
    where
      outcome : Bool → Option Pointer → Option (Unit {0} × World)
      outcome flag room = some (
        tt,
        if flag
            then departed w.next_user caller members v room
            else send (command_packets (v.users w.next_user).socket connection_error) v,
      )

  pub outside-sent : outside.sent ≡ w.sent ++ left_packets (w.users caller).name w.users members
  unfolding outside left taken
  outside-sent =
      ap (λ (u : User). w.sent ++ left_packets u.name v.users members) caller_eq
      ∙ ap (λ (ps : List Packet). w.sent ++ ps)
          (left_packets-eq (w.users caller).name v.users w.users members (
            taken-members sock (leftover rest q) w caller can.consistent can.caller_is members
              can.members_connected))

  pub granted :
      w.inbox sock ≡ chunk (command_bytes leave_command ++ rest) ∷ q
      → Loop.round sock w ≡ some (tt, outside)
  unfolding handle ◌>>=◌
  granted e =
      round-handle sock leave_command (leftover rest q) w can.connected
        (ap read_command e ∙ read_command-command_bytes leave_command rest q (omega arith))
      ∙ leaving

-- When what a client in a room writes to close its session arrives at the dispatcher, and its
-- user is in a room of another, one round of the dispatcher answers it without a fault, and what
-- it sends makes, in one round each, the client that left be in no room, and the client of another
-- member drop the first partner of that name and keep the rest: if each of the two has a socket of
-- its own among the members, the other client has such a partner, and the leaver's name can be
-- read and is its client's own.
pub round-close_session :
    (w : World) (sock : Socket) (caller chatroom p : Pointer) (u : Str)
    (members before after before' after' : OrderedMap Pointer) (c a b : Client)
    (had kept : List Partner) (gone : Partner) (rest : List ℕ) (q : List Arrival)
    → CanLeave w sock caller chatroom members
    → c.is_in_session ≡ true
    → c.is_in_chat_room ≡ true
    → w.inbox sock ≡ chunk (news c (close_session c) ++ rest) ∷ q
    → IsHeardAt w members before ((w.users caller).name, caller) after
    → IsHeardAt w members before' (u, p) after'
    → str_eq (w.users caller).name a.client_name ≡ true
    → str_eq (w.users caller).name b.client_name ≡ false
    → b.chatroom_partners ≡ had ++ (gone ∷ kept)
    → LacksPartner (w.users caller).name had
    → str_eq gone.name (w.users caller).name ≡ true
    → (v : World) × (packets : List Packet) × (Loop.round sock w ≡ some (tt, v))
      × (v.sent ≡ w.sent ++ packets)
      × (round (hearing (w.users caller).socket packets a)
          ≡ some (in_no_room (record a { inbox = [] })))
      × (round (hearing (w.users p).socket packets b)
          ≡ some (record b { inbox = []; chatroom_partners = had ++ kept }))
round-close_session w sock caller chatroom p u members before after before' after' c a b had kept
      gone rest q can i r e own other mine theirs held lacks same =
    let name = (w.users caller).name in
    let sent = left_packets name w.users members in
    (
      outside w sock caller chatroom members rest q can,
      sent,
      granted w sock caller chatroom members rest q can
          (e ∙ ap (λ bs. chunk bs ∷ q) (news-close_session c rest i r)),
      outside-sent w sock caller chatroom members rest q can,
      round-own_farewell (w.users caller).socket name (hearing (w.users caller).socket sent a) [] []
          own.is_socket can.caller_readable mine
          (ap (λ bs. chunk bs ∷ []) (heard_by name w members before name caller after own)),
      round-farewell_packets (w.users p).socket name (hearing (w.users p).socket sent b) had kept
          gone [] [] other.is_socket can.caller_readable theirs held lacks same
          (ap (λ bs. chunk bs ∷ []) (heard_by name w members before' u p after' other)),
    )
