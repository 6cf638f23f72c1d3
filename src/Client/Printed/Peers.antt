-- ===== src/Client/Printed/Peers.antt =====
-- What a client prints of the users of its chat room, from what the dispatcher sends of them
-- (ServerSide/src/Dispatcher.cpp, join_chatroom) to the lines of gotChatroomUsersList and
-- userHasJoinedChatroom (ClientSide/src/Client.cpp).
use networking_programming_p.Base.{
  ℕ, ◌^◌, ◌<◌, ◌≡◌, refl, sym, ◌∙◌, ap, Str, List, [], ◌∷◌, ◌++◌, append_assoc, some, false, arith,
  length, lt→ltb, ◌==◌, codes,
}
use networking_programming_p.Wire.{Arrival, chunk, leftover, command_bytes, msg_bytes}
use networking_programming_p.Address.{SockAddr, dest_ip_and_port, decimal}
use networking_programming_p.OrderedMap.{OrderedMap, keys}
use networking_programming_p.Protocol.{chatroom_list, new_user_to_chatroom}
use networking_programming_p.Dispatcher.State.{Pointer, Socket, User, World}
use networking_programming_p.Dispatcher.Rooms.Join.{newcomer_packets, room_packets}
use networking_programming_p.Client.{Client}
use networking_programming_p.Client.Handlers.{list_size, partner_at}
use networking_programming_p.Client.Delivered.{
  delivered, IsReadable, IsPrintable, read_command-leftover, delivered-command_hit,
  delivered-msg_hit, delivered-msg_last,
}
use networking_programming_p.Client.Rooms.{
  partner_of, partner_at-dest_ip_and_port, AreReadable, members_bytes, delivered-members_packets,
}
use networking_programming_p.Client.Printed.{
  with_line, partner_text, partner_lines, got_chatroom_users_list, user_has_joined_chatroom,
  switch_lines, round_lines,
}
use networking_programming_p.Client.Printed.Lists.{after_msg_lem, round_lines_heard}

-- A user as the clients print it: the name, and in brackets the address as the server prints it.
abbrev pub shown : Str → SockAddr → Str
shown name a = name ++ (codes "(" ++ (dest_ip_and_port a ++ codes ")"))

partner_text-partner_of :
    (name : Str) (a : SockAddr) → partner_text (partner_of name a) ≡ shown name a
unfolding dest_ip_and_port
partner_text-partner_of name a =
    ap (λ (t : Str). name ++ (codes "(" ++ t))
      (sym (append_assoc a.ip (codes ":" ++ decimal a.port) (codes ")")))

partner_text-partner_at :
    (name : Str) (a : SockAddr)
    → IsPrintable a
    → partner_text (partner_at name (dest_ip_and_port a)) ≡ shown name a
partner_text-partner_at name a p =
    ap partner_text (partner_at-dest_ip_and_port name a p) ∙ partner_text-partner_of name a

module _ (users : Pointer → User) (address : Socket → SockAddr) where
  -- One line for each member of a room.
  abbrev pub member_lines : OrderedMap Pointer → List Str
  member_lines [] = []
  member_lines ((u, p) ∷ members) =
      (codes "Chatroom partner: " ++ shown u (address (users p).socket)) ∷ member_lines members

  partner_lines_lem :
      (members : OrderedMap Pointer) (rest : List ℕ) (q : List Arrival)
      → AreReadable users address members
      → partner_lines
          (length (keys members))
          (leftover (members_bytes users address members rest) q)
        ≡ some (member_lines members)
  unfolding partner_lines members_bytes
  partner_lines_lem [] rest q a = refl
  partner_lines_lem ((u, p) ∷ members) rest q a =
      let text = dest_ip_and_port (address (users p).socket) in
      let after = members_bytes users address members rest in
      after_msg_lem _ u (msg_bytes text ++ after) q a.0.0
      ∙ after_msg_lem _ text after q a.0.1.2
      ∙ ap
          (λ t.
            with_line (codes "Chatroom partner: " ++ t)
              (partner_lines (length (keys members)) (leftover after q)))
          (partner_text-partner_at u (address (users p).socket) a.0.1)
      ∙ ap (with_line _) (partner_lines_lem members rest q a.1)

-- When what the dispatcher sends a newcomer of a room's members arrives in one portion, the client
-- prints one line for each member, in the order of the room, with its name and its address as the
-- server prints it: if the names and addresses can be read and there are fewer than 2^31 members.
pub round_lines-room_packets :
    (w : World) (sock : Socket) (members : OrderedMap Pointer) (c : Client) (rest : List ℕ)
    (q : List Arrival)
    → AreReadable w.users w.address members
    → length (keys members) < 2 ^ 31
    → c.inbox ≡ chunk (delivered sock (room_packets sock w members) ++ rest) ∷ q
    → round_lines c ≡ some (member_lines w.users w.address members)
unfolding switch_lines got_chatroom_users_list list_size
round_lines-room_packets w sock members c rest q a h e =
    let bytes = members_bytes w.users w.address members rest in
    let after = command_bytes (length (keys members)) ++ bytes in
    let flat : delivered sock (room_packets sock w members) ++ rest
        ≡ command_bytes chatroom_list ++ after =
      rw (
        delivered-command_hit,
        delivered-command_hit,
        append_assoc,
        append_assoc,
        delivered-members_packets w.users w.address,
      ) in
    round_lines_heard chatroom_list after q c refl (omega arith) (e ∙ ap (λ bs. chunk bs ∷ q) flat)
    ∙ rw (read_command-leftover (length (keys members)) bytes q (omega arith), lt→ltb _ _ h)
        (partner_lines_lem w.users w.address members rest q a)

-- When what the dispatcher sends a member of a newcomer arrives in one portion, the client prints
-- the newcomer's name and its address as the server prints it: if they can be read.
pub round_lines-newcomer_packets :
    (s : Socket) (name : Str) (a : SockAddr) (c : Client) (rest : List ℕ) (q : List Arrival)
    → (s == 0) ≡ false
    → IsReadable name
    → IsPrintable a
    → c.inbox ≡ chunk (delivered s (newcomer_packets s name (dest_ip_and_port a)) ++ rest) ∷ q
    → round_lines c ≡ some ((codes "New user: " ++ shown name a) ∷ [])
unfolding switch_lines user_has_joined_chatroom
round_lines-newcomer_packets s name a c rest q z n p e =
    let text = dest_ip_and_port a in
    let after = msg_bytes name ++ (msg_bytes text ++ rest) in
    let flat : delivered s (newcomer_packets s name text) ++ rest
        ≡ command_bytes new_user_to_chatroom ++ after =
      rw z (
        rw (
          delivered-command_hit, delivered-msg_hit, delivered-msg_last, append_assoc, append_assoc,
        )) in
    round_lines_heard new_user_to_chatroom after q c refl (omega arith)
      (e ∙ ap (λ bs. chunk bs ∷ q) flat)
    ∙ after_msg_lem _ name (msg_bytes text ++ rest) q n
    ∙ after_msg_lem _ text rest q p.2
    ∙ ap (λ t. some ((codes "New user: " ++ t) ∷ [])) (partner_text-partner_at name a p)
