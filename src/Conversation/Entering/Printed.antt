-- ===== src/Conversation/Entering/Printed.antt =====
-- What the clients print when a user enters a chat room, from the request through the dispatcher
-- (ClientSide/src/Client.cpp, CreateChatRoom, gotChatroomUsersList and userHasJoinedChatroom, and
-- ServerSide/src/Dispatcher.cpp, join_chatroom).
use networking_programming_p.Base.{
  ℕ, ◌≡◌, refl, sym, ap, ◌∙◌, Str, List, [], ◌∷◌, ◌++◌, append-nil, some, false, codes, ◌==◌,
}
use networking_programming_p.Wire.{Arrival, chunk}
use networking_programming_p.Address.{dest_ip_and_port}
use networking_programming_p.OrderedMap.{OrderedMap}
use networking_programming_p.Dispatcher.State.{Pointer, Socket, Packet, World}
use networking_programming_p.Dispatcher.Rooms.Join.{announce_packets, room_packets}
use networking_programming_p.Dispatcher.Loop
use networking_programming_p.Client.{Client}
use networking_programming_p.Client.Requests.{create_chat_room}
use networking_programming_p.Client.Delivered.{delivered}
use networking_programming_p.Client.Printed.{round_lines}
use networking_programming_p.Client.Printed.Peers.{
  shown, member_lines, round_lines-room_packets, round_lines-newcomer_packets,
}
use networking_programming_p.Conversation.{news, hearing}
use networking_programming_p.Conversation.Audience.{
  AreElsewhere, delivered-announce_miss, delivered-member,
}
use networking_programming_p.Conversation.Entering.{
  CanEnter, asked, inside, packets, granted, inside-sent, news-create_chat_room,
}

module _ (w : World) (sock : Socket) (caller chatroom : Pointer) (room_name : Str)
    (members : OrderedMap Pointer) (rest : List ℕ) (q : List Arrival)
    (can : CanEnter w sock caller chatroom room_name members) where
  abbrev sent : List Packet
  sent = packets w sock caller chatroom room_name members rest q can

  -- What the newcomer's client prints.
  round_lines-hearing_room :
      (a : Client)
      → round_lines (hearing sock sent a) ≡ some (member_lines w.users w.address members)
  round_lines-hearing_room a =
      round_lines-room_packets w sock members (hearing sock sent a) [] [] can.members_readable
        can.few
        (ap (λ bs. chunk bs ∷ [])
          (delivered-announce_miss sock (w.users caller).name
              (dest_ip_and_port (w.address (w.users caller).socket)) w.users members
              (room_packets sock w members) can.members_elsewhere
            ∙ sym (append-nil (delivered sock (room_packets sock w members)))))

  -- What the client of a member prints.
  round_lines-hearing_newcomer :
      (before after : OrderedMap Pointer) (u : Str) (p : Pointer) (b : Client)
      → members ≡ before ++ ((u, p) ∷ after)
      → ((w.users p).socket == 0) ≡ false
      → (sock == (w.users p).socket) ≡ false
      → AreElsewhere (w.users p).socket w.users before
      → AreElsewhere (w.users p).socket w.users after
      → round_lines (hearing (w.users p).socket sent b)
        ≡ some (
            (codes "New user: " ++ shown (w.users caller).name (w.address (w.users caller).socket))
            ∷ [])
  round_lines-hearing_newcomer before after u p b split z apart eb ea =
      let name = (w.users caller).name in
      let a = w.address (w.users caller).socket in
      round_lines-newcomer_packets (w.users p).socket name a (hearing (w.users p).socket sent b) []
        [] z can.caller_readable can.caller_printable
        (ap (λ bs. chunk bs ∷ [])
          (ap
              (λ (m : OrderedMap Pointer). delivered (w.users p).socket (
                announce_packets name (dest_ip_and_port a) w.users m
                ++ room_packets sock w members))
              split
            ∙ delivered-member name (dest_ip_and_port a) u w sock before after members p eb ea
                apart))

-- When what a client writes to enter a room arrives at the dispatcher and the request can be
-- granted, one round of the dispatcher answers it without a fault, and what it sends makes the
-- newcomer's client print one line for each member, in the order of the room, with its name and its
-- address as the server prints it, and the client of a member whose socket is no other member's
-- print the name and the address of the newcomer.
pub round_lines-create_chat_room :
    (w : World) (sock : Socket) (caller chatroom p : Pointer) (room_name u : Str)
    (before after : OrderedMap Pointer) (c a b : Client) (rest : List ℕ) (q : List Arrival)
    → CanEnter w sock caller chatroom room_name (before ++ ((u, p) ∷ after))
    → ((w.users p).socket == 0) ≡ false
    → (sock == (w.users p).socket) ≡ false
    → AreElsewhere (w.users p).socket w.users before
    → AreElsewhere (w.users p).socket w.users after
    → w.inbox sock ≡ chunk (news c (create_chat_room room_name c) ++ rest) ∷ q
    → (v : World) × (packets : List Packet) × (Loop.round sock w ≡ some (tt, v))
      × (v.sent ≡ w.sent ++ packets)
      × (round_lines (hearing sock packets a)
          ≡ some (member_lines w.users w.address (before ++ ((u, p) ∷ after))))
      × (round_lines (hearing (w.users p).socket packets b)
          ≡ some (
              (codes "New user: "
                ++ shown (w.users caller).name (w.address (w.users caller).socket))
              ∷ []))
unfolding asked
round_lines-create_chat_room w sock caller chatroom p room_name u before after c a b rest q can z
      apart eb ea e =
    let members = before ++ ((u, p) ∷ after) in
    (
      inside w sock caller chatroom room_name members rest q can,
      packets w sock caller chatroom room_name members rest q can,
      granted w sock caller chatroom room_name members rest q can
          (e ∙ ap (λ bs. chunk bs ∷ q) (news-create_chat_room room_name c rest)),
      inside-sent w sock caller chatroom room_name members rest q can,
      round_lines-hearing_room w sock caller chatroom room_name members rest q can a,
      round_lines-hearing_newcomer w sock caller chatroom room_name members rest q can before after
          u p b refl z apart eb ea,
    )
