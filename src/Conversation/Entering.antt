-- ===== src/Conversation/Entering.antt =====
-- A user enters a chat room, from the request to what the clients make of the answer:
-- Client::CreateChatRoom (ClientSide/src/Client.cpp), a round of Dispatcher::run
-- (ServerSide/src/Dispatcher.cpp, join_chatroom), and a round of Client::run.
pub mod Printed
use networking_programming_p.Base.{
  ℕ, ◌^◌, ◌<◌, ◌≡◌, refl, sym, ap, subst, ◌∙◌, Str, List, [], ◌∷◌, ◌++◌, append_assoc, append-nil,
  Option, none, some, false, arith, length, drop-append, All, ◌==◌,
}
use networking_programming_p.Wire.{
  Arrival, chunk, leftover, read_command, read_msg, command_bytes, msg_bytes,
}
use networking_programming_p.Wire.RoundTrip.{read_command-command_bytes}
use networking_programming_p.Address.{SockAddr, dest_ip_and_port}
use networking_programming_p.OrderedMap.{OrderedMap, find, keys}
use networking_programming_p.Protocol.{open_chatroom, chatroom_list}
use networking_programming_p.Dispatcher.State.{Pointer, Socket, User, Packet, World}
use networking_programming_p.Dispatcher.Monad.{◌>>=◌, command_packets}
use networking_programming_p.Dispatcher.Caller.{scan_users}
use networking_programming_p.Dispatcher.Steps.{consumed}
use networking_programming_p.Dispatcher.Consistency.{IsConsistent}
use networking_programming_p.Dispatcher.Rooms.{join_chatroom}
use networking_programming_p.Dispatcher.Rooms.Join.{
  AreConnected, HasMembersAt, announce_packets, members_packets, room_packets, entered, joined,
  join_chatroom_lem,
}
use networking_programming_p.Dispatcher.Loop.{handle}
use networking_programming_p.Dispatcher.Loop
use networking_programming_p.Dispatcher.Taken.{
  taken, round-handle, taken-socket, taken-caller, taken-members, taken-heard, taken-found,
}
use networking_programming_p.Client.{Client}
use networking_programming_p.Client.Requests.{create_chat_room}
use networking_programming_p.Client.Run.{round}
use networking_programming_p.Client.Delivered.{
  delivered, IsReadable, IsPrintable, read_msg-leftover,
}
use networking_programming_p.Client.Rooms.{
  partner_of, partners_of, AreReadable, in_room_with, round-room_packets, round-newcomer_packets,
}
use networking_programming_p.Conversation.{news, hearing}
use networking_programming_p.Conversation.Audience.{
  AreElsewhere, delivered-announce_miss, delivered-member,
}

pub news-create_chat_room :
    (room_name : Str) (c : Client) (rest : List ℕ)
    → news c (create_chat_room room_name c) ++ rest
      ≡ command_bytes open_chatroom ++ (msg_bytes room_name ++ rest)
unfolding create_chat_room msg_bytes
news-create_chat_room room_name c rest = simp (append_assoc, drop-append, append-nil)

-- A request to enter a room that the dispatcher can grant: there is the room, its members are
-- connected and on other sockets than the one that asks, and all names and addresses can be read.
pub record CanEnter (w : World) (sock : Socket) (caller chatroom : Pointer) (room_name : Str)
    (members : OrderedMap Pointer) : Type 0 where
  pub consistent : IsConsistent w
  pub connected : (sock == 0) ≡ false
  pub caller_is : scan_users w.users sock none w.users_map ≡ some caller
  pub room_is : find room_name w.chatrooms_map ≡ some chatroom
  pub members_are : (w.rooms chatroom).users ≡ keys members
  pub members_connected : AreConnected w.users_map members
  pub members_elsewhere : AreElsewhere sock w.users members
  pub members_readable : AreReadable w.users w.address members
  pub few : length (keys members) < 2 ^ 31
  pub room_readable : IsReadable room_name
  pub caller_readable : IsReadable (w.users caller).name
  pub caller_printable : IsPrintable (w.address (w.users caller).socket)

announce_packets-eq :
    (name text : Str) (f g : Pointer → User) (members : OrderedMap Pointer)
    → All (λ (e : Str × Pointer). f e.1 ≡ g e.1) members
    → announce_packets name text f members ≡ announce_packets name text g members
announce_packets-eq name text f g [] a = refl
announce_packets-eq name text f g ((u, p) ∷ members) a =
    rw (a.0, announce_packets-eq name text f g members a.1) refl

members_packets-eq :
    (sock : Socket) (address : Socket → SockAddr) (f g : Pointer → User)
    (members : OrderedMap Pointer)
    → All (λ (e : Str × Pointer). f e.1 ≡ g e.1) members
    → members_packets sock f address members ≡ members_packets sock g address members
members_packets-eq sock address f g [] a = refl
members_packets-eq sock address f g ((u, p) ∷ members) a =
    rw (a.0, members_packets-eq sock address f g members a.1) refl

module _ (w : World) (sock : Socket) (caller chatroom : Pointer) (room_name : Str)
    (members : OrderedMap Pointer) (rest : List ℕ) (q : List Arrival)
    (can : CanEnter w sock caller chatroom room_name members) where
  unfoldable pub asked : List ℕ
  asked = msg_bytes room_name ++ rest

  abbrev v : World
  v = taken sock (leftover asked q) w

  abbrev heard : World
  heard = consumed sock (leftover rest q) v

  caller_eq : v.users caller ≡ w.users caller
  caller_eq = taken-caller sock (leftover asked q) w caller can.consistent can.caller_is

  own_socket : (v.users w.next_user).socket ≡ sock
  own_socket = taken-socket sock (leftover asked q) w

  members_eq : All (λ (e : Str × Pointer). v.users e.1 ≡ w.users e.1) members
  members_eq =
      taken-members sock (leftover asked q) w caller can.consistent can.caller_is members
        can.members_connected

  -- What is sent
  abbrev pub packets : List Packet
  packets =
      announce_packets (w.users caller).name (dest_ip_and_port (w.address (w.users caller).socket))
        w.users members
      ++ room_packets sock w members

  read_name : read_msg (v.inbox (v.users w.next_user).socket) ≡ some (room_name, leftover rest q)
  unfolding asked
  read_name =
      ap read_msg (taken-heard sock (leftover asked q) w caller can.consistent can.caller_is)
      ∙ read_msg-leftover room_name rest q can.room_readable

  room_found : find room_name v.chatrooms_map ≡ some chatroom
  unfolding taken
  room_found = can.room_is

  room_members : HasMembersAt members v (some chatroom)
  unfolding taken
  room_members = (can.members_are, can.members_connected)

  unfoldable pub inside : World
  inside = entered sock caller chatroom members heard

  entering : join_chatroom w.next_user v ≡ some (tt, inside)
  unfolding inside
  entering =
      join_chatroom_lem v w.next_user caller room_name (leftover rest q) members read_name
        (taken-found sock (leftover asked q) w caller can.consistent can.caller_is)
        (subst (HasMembersAt members v) (sym room_found) room_members)
      ∙ ap
          (λ (s : Socket). some (
            tt,
            joined w.next_user caller room_name members (consumed s (leftover rest q) v)
                (find room_name v.chatrooms_map),
          ))
          own_socket
      ∙ ap (λ (o : Option Pointer). some (tt, joined w.next_user caller room_name members heard o))
          room_found
      ∙ ap (λ (s : Socket). some (tt, entered s caller chatroom members heard)) own_socket

  pub inside-sent : inside.sent ≡ w.sent ++ packets
  unfolding inside entered taken
  inside-sent =
      ap (λ (u : User). w.sent ++ (announced u v.users ++ listed v.users)) caller_eq
      ∙ ap (λ (ps : List Packet). w.sent ++ (ps ++ listed v.users))
          (announce_packets-eq _ _ v.users w.users members members_eq)
      ∙ ap (λ (ps : List Packet). w.sent ++ (announced (w.users caller) w.users ++ (heads ++ ps)))
          (members_packets-eq sock w.address v.users w.users members members_eq)
    where
      announced : User → (Pointer → User) → List Packet
      announced u users =
          announce_packets u.name (dest_ip_and_port (w.address u.socket)) users members

      heads : List Packet
      heads = command_packets sock chatroom_list ++ command_packets sock (length (keys members))

      listed : (Pointer → User) → List Packet
      listed users = heads ++ members_packets sock users w.address members

  pub granted :
      w.inbox sock ≡ chunk (command_bytes open_chatroom ++ asked) ∷ q
      → Loop.round sock w ≡ some (tt, inside)
  unfolding handle ◌>>=◌
  granted e =
      round-handle sock open_chatroom (leftover asked q) w can.connected
        (ap read_command e ∙ read_command-command_bytes open_chatroom asked q (omega arith))
      ∙ entering

  -- What the newcomer's client makes of it.
  pub round-hearing_room :
      (a : Client)
      → round (hearing sock packets a)
        ≡ some (in_room_with (partners_of w.users w.address members) (record a { inbox = [] }))
  round-hearing_room a =
      round-room_packets w sock members (hearing sock packets a) [] [] can.members_readable can.few
        (ap (λ bs. chunk bs ∷ [])
          (delivered-announce_miss sock (w.users caller).name
              (dest_ip_and_port (w.address (w.users caller).socket)) w.users members
              (room_packets sock w members) can.members_elsewhere
            ∙ sym (append-nil (delivered sock (room_packets sock w members)))))

  -- What the client of a member makes of it.
  pub round-hearing_newcomer :
      (before after : OrderedMap Pointer) (u : Str) (p : Pointer) (b : Client)
      → members ≡ before ++ ((u, p) ∷ after)
      → ((w.users p).socket == 0) ≡ false
      → (sock == (w.users p).socket) ≡ false
      → AreElsewhere (w.users p).socket w.users before
      → AreElsewhere (w.users p).socket w.users after
      → round (hearing (w.users p).socket packets b)
        ≡ some (record b {
          inbox = [];
          chatroom_partners =
              b.chatroom_partners
              ++ (partner_of (w.users caller).name (w.address (w.users caller).socket) ∷ []);
        })
  round-hearing_newcomer before after u p b split z apart eb ea =
      let name = (w.users caller).name in
      let a = w.address (w.users caller).socket in
      round-newcomer_packets (w.users p).socket name a (hearing (w.users p).socket packets b) [] []
        z can.caller_readable can.caller_printable
        (ap (λ bs. chunk bs ∷ [])
          (ap
              (λ (m : OrderedMap Pointer). delivered (w.users p).socket (
                announce_packets name (dest_ip_and_port a) w.users m
                ++ room_packets sock w members))
              split
            ∙ delivered-member name (dest_ip_and_port a) u w sock before after members p eb ea
                apart))

-- When what a client writes to enter a room arrives at the dispatcher and the request can be
-- granted, one round of the dispatcher answers it without a fault, and what it sends makes, in one
-- round each, the newcomer's client hold every member as a partner, in the order of the room, and
-- the client of a member whose socket is no other member's hold the newcomer behind its partners:
-- each under its name and at the address that the server sees.
pub round-create_chat_room :
    (w : World) (sock : Socket) (caller chatroom p : Pointer) (room_name u : Str)
    (before after : OrderedMap Pointer) (c a b : Client) (rest : List ℕ) (q : List Arrival)
    → CanEnter w sock caller chatroom room_name (before ++ ((u, p) ∷ after))
    → ((w.users p).socket == 0) ≡ false
    → (sock == (w.users p).socket) ≡ false
    → AreElsewhere (w.users p).socket w.users before
    → AreElsewhere (w.users p).socket w.users after
    → w.inbox sock ≡ chunk (news c (create_chat_room room_name c) ++ rest) ∷ q
    → (v : World) × (packets : List Packet) × (Loop.round sock w ≡ some (tt, v))
      × (v.sent ≡ w.sent ++ packets)
      × (round (hearing sock packets a)
          ≡ some (
              in_room_with
                (partners_of w.users w.address (before ++ ((u, p) ∷ after)))
                (record a { inbox = [] })))
      × (round (hearing (w.users p).socket packets b)
          ≡ some (record b {
            inbox = [];
            chatroom_partners =
                b.chatroom_partners
                ++ (partner_of (w.users caller).name (w.address (w.users caller).socket) ∷ []);
          }))
unfolding asked
round-create_chat_room w sock caller chatroom p room_name u before after c a b rest q can z apart eb
      ea e =
    let members = before ++ ((u, p) ∷ after) in
    (
      inside w sock caller chatroom room_name members rest q can,
      packets w sock caller chatroom room_name members rest q can,
      granted w sock caller chatroom room_name members rest q can
          (e ∙ ap (λ bs. chunk bs ∷ q) (news-create_chat_room room_name c rest)),
      inside-sent w sock caller chatroom room_name members rest q can,
      round-hearing_room w sock caller chatroom room_name members rest q can a,
      round-hearing_newcomer w sock caller chatroom room_name members rest q can before after u p b
          refl z apart eb ea,
    )
