-- ===== src/Client/Rooms.antt =====
-- A chat room as its members see it: what the dispatcher sends when a user enters or leaves a room
-- (ServerSide/src/Dispatcher.cpp, join_chatroom and leave_chatroom), and what the clients make of
-- it (ClientSide/src/Client.cpp, run).
use networking_programming_p.Base.{
  ℕ, ◌^◌, ◌<◌, ◌≡◌, refl, ◌∙◌, ap, Str, List, [], ◌∷◌, ◌++◌, append_assoc, some, true, false, arith,
  length, lt→ltb, All, ◌==◌,
}
use networking_programming_p.Wire.{Arrival, chunk, leftover, command_bytes, msg_bytes}
use networking_programming_p.Address.{SockAddr, dest_ip_and_port}
use networking_programming_p.Address.RoundTrip.{parse_address-dest_ip_and_port}
use networking_programming_p.OrderedMap.{OrderedMap, keys}
use networking_programming_p.Protocol.{chatroom_list, new_user_to_chatroom}
use networking_programming_p.Dispatcher.State.{Pointer, Socket, User, World}
use networking_programming_p.Dispatcher.Rooms.Join.{newcomer_packets, members_packets, room_packets}
use networking_programming_p.Client.{Partner, Client}
use networking_programming_p.Client.Handlers.{
  list_size, with_count, partner_at, add_partner, got_partners, got_chatroom_users_list,
  put_newcomer, user_has_joined_chatroom,
}
use networking_programming_p.Client.Run.{switch, round}
use networking_programming_p.Client.Delivered.{
  delivered, IsReadable, IsPrintable, read_command-leftover, with_pair_lem, moved, round_heard,
  delivered-command_hit, delivered-msg_hit, delivered-msg_last,
}

-- The partner at an address.
abbrev pub partner_of : Str → SockAddr → Partner
partner_of name a = record { name = name; ip = a.ip; port = a.port }

pub partner_at-dest_ip_and_port :
    (name : Str) (a : SockAddr)
    → IsPrintable a
    → partner_at name (dest_ip_and_port a) ≡ partner_of name a
partner_at-dest_ip_and_port name a p =
    ap (partner_of name) (parse_address-dest_ip_and_port a p.0 p.1)

-- The members of a room as partners.
abbrev pub partners_of : (Pointer → User) → (Socket → SockAddr) → OrderedMap Pointer → List Partner
partners_of users address [] = []
partners_of users address ((u, p) ∷ members) =
    partner_of u (address (users p).socket) ∷ partners_of users address members

-- The names and the addresses of the members can be read.
abbrev pub AreReadable : (Pointer → User) → (Socket → SockAddr) → OrderedMap Pointer → Type 0
AreReadable users address members =
    All (λ (e : Str × Pointer). IsReadable e.0 × IsPrintable (address (users e.1).socket)) members

-- A client that has been sent the members of a room; to be sent none changes nothing.
abbrev pub in_room_with : List Partner → Client → Client
in_room_with [] c = c
in_room_with (p ∷ ps) c = record c {
  is_in_session = true;
  is_in_chat_room = true;
  chatroom_partners = c.chatroom_partners ++ (p ∷ ps);
}

module _ (users : Pointer → User) (address : Socket → SockAddr) where
  unfoldable pub members_bytes : OrderedMap Pointer → List ℕ → List ℕ
  members_bytes [] rest = rest
  members_bytes ((u, p) ∷ members) rest =
      msg_bytes u
      ++ (msg_bytes (dest_ip_and_port (address (users p).socket)) ++ members_bytes members rest)

  pub delivered-members_packets :
      (sock : Socket) (members : OrderedMap Pointer) (rest : List ℕ)
      → delivered sock (members_packets sock users address members) ++ rest
        ≡ members_bytes members rest
  unfolding members_bytes delivered
  delivered-members_packets sock [] rest = refl
  delivered-members_packets sock ((u, p) ∷ members) rest = rw (
    delivered-msg_hit,
    delivered-msg_hit,
    append_assoc,
    append_assoc,
    delivered-members_packets sock members rest,
  )

  in_room_with-cons :
      (p : Partner) (ps : List Partner) (c : Client)
      → in_room_with ps (in_room_with (p ∷ []) c) ≡ in_room_with (p ∷ ps) c
  in_room_with-cons p [] c = refl
  in_room_with-cons p (q ∷ ps) c =
      ap
        (λ (l : List Partner). record c {
          is_in_session = true;
          is_in_chat_room = true;
          chatroom_partners = l;
        })
        (append_assoc c.chatroom_partners (p ∷ []) (q ∷ ps))

  got_partners_lem :
      (members : OrderedMap Pointer) (rest : List ℕ) (q : List Arrival) (c : Client)
      → AreReadable users address members
      → got_partners (length (keys members)) (moved (leftover (members_bytes members rest) q) c)
        ≡ some (in_room_with (partners_of users address members) (moved (leftover rest q) c))
  unfolding got_partners members_bytes add_partner
  got_partners_lem [] rest q c a = refl
  got_partners_lem ((u, p) ∷ members) rest q c a =
      with_pair_lem
        (λ name text c'. got_partners (length (keys members)) (add_partner name text c'))
        (moved (leftover (members_bytes ((u, p) ∷ members) rest) q) c) u
        (dest_ip_and_port (address (users p).socket)) (members_bytes members rest) q a.0.0 a.0.1.2
        refl
      ∙ ap
          (λ (x : Partner).
            got_partners (length (keys members)) (in_room_with (x ∷ []) (moved after c)))
          (partner_at-dest_ip_and_port u (address (users p).socket) a.0.1)
      ∙ got_partners_lem members rest q (in_room_with (first ∷ []) c) a.1
      ∙ ap some
          (in_room_with-cons first (partners_of users address members) (moved (leftover rest q) c))
    where
      after : List Arrival
      after = leftover (members_bytes members rest) q

      first : Partner
      first = partner_of u (address (users p).socket)

  got_chatroom_users_list_lem :
      (members : OrderedMap Pointer) (rest : List ℕ) (q : List Arrival) (c : Client)
      → AreReadable users address members
      → length (keys members) < 2 ^ 31
      → got_chatroom_users_list (
          moved
            (leftover (command_bytes (length (keys members)) ++ members_bytes members rest) q)
            c)
        ≡ some (in_room_with (partners_of users address members) (moved (leftover rest q) c))
  unfolding got_chatroom_users_list with_count list_size
  got_chatroom_users_list_lem members rest q c a h =
      rw
        (
          read_command-leftover (length (keys members)) (members_bytes members rest) q
              (omega arith),
          lt→ltb _ _ h,
        )
        (got_partners_lem members rest q c a)

-- When what the dispatcher sends a newcomer of a room's members arrives in one portion, that
-- client has, after one round, each member in its order behind the partners that it had, at the
-- address that the server sees, and is in the room if there is a member: if the names and
-- addresses can be read and there are fewer than 2^31 members.
pub round-room_packets :
    (w : World) (sock : Socket) (members : OrderedMap Pointer) (c : Client) (rest : List ℕ)
    (q : List Arrival)
    → AreReadable w.users w.address members
    → length (keys members) < 2 ^ 31
    → c.inbox ≡ chunk (delivered sock (room_packets sock w members) ++ rest) ∷ q
    → round c
      ≡ some (in_room_with (partners_of w.users w.address members) (moved (leftover rest q) c))
unfolding switch
round-room_packets w sock members c rest q a h e =
    let bytes = members_bytes w.users w.address members rest in
    let after = command_bytes (length (keys members)) ++ bytes in
    let flat : delivered sock (room_packets sock w members) ++ rest
        ≡ command_bytes chatroom_list ++ after =
      rw (
        delivered-command_hit,
        delivered-command_hit,
        append_assoc,
        append_assoc,
        delivered-members_packets w.users w.address,
      ) in
    round_heard chatroom_list after q c refl (omega arith) (e ∙ ap (λ bs. chunk bs ∷ q) flat)
    ∙ got_chatroom_users_list_lem w.users w.address members rest q c a h

-- When what the dispatcher sends a member of a newcomer arrives in one portion, that client has,
-- after one round, the newcomer behind its other partners, at the address that the server sees,
-- and is otherwise as it was: if the newcomer's name is readable and its address printable.
pub round-newcomer_packets :
    (s : Socket) (name : Str) (a : SockAddr) (c : Client) (rest : List ℕ) (q : List Arrival)
    → (s == 0) ≡ false
    → IsReadable name
    → IsPrintable a
    → c.inbox ≡ chunk (delivered s (newcomer_packets s name (dest_ip_and_port a)) ++ rest) ∷ q
    → round c
      ≡ some (record c {
        inbox = leftover rest q;
        chatroom_partners = c.chatroom_partners ++ (partner_of name a ∷ []);
      })
unfolding switch user_has_joined_chatroom put_newcomer
round-newcomer_packets s name a c rest q z n p e =
    let after = msg_bytes name ++ (msg_bytes (dest_ip_and_port a) ++ rest) in
    let flat : delivered s (newcomer_packets s name (dest_ip_and_port a)) ++ rest
        ≡ command_bytes new_user_to_chatroom ++ after =
      rw z (
        rw (
          delivered-command_hit, delivered-msg_hit, delivered-msg_last, append_assoc, append_assoc,
        )) in
    round_heard new_user_to_chatroom after q c refl (omega arith) (e ∙ ap (λ bs. chunk bs ∷ q) flat)
    ∙ with_pair_lem put_newcomer (moved (leftover after q) c) name (dest_ip_and_port a) rest q n p.2
        refl
    ∙ ap
        (λ (x : Partner). some (record (moved (leftover rest q) c) {
          chatroom_partners = c.chatroom_partners ++ (x ∷ []);
        }))
        (partner_at-dest_ip_and_port name a p)
