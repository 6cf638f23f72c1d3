-- ===== src/Client/Departures.antt =====
-- A user that leaves a chat room, as the clients see it: what the dispatcher sends of it
-- (ServerSide/src/Dispatcher.cpp, leave_chatroom), and what they make of it
-- (ClientSide/src/Client.cpp, userHasLeftChatroom).
use networking_programming_p.Base.{
  ℕ, ◌≡◌, refl, ◌∙◌, ap, Str, List, [], ◌∷◌, ◌++◌, append_assoc, some, true, false, arith, ◌==◌,
  str_eq,
}
use networking_programming_p.Wire.{Arrival, chunk, leftover, command_bytes, msg_bytes}
use networking_programming_p.Protocol.{user_has_left_chatroom}
use networking_programming_p.Dispatcher.State.{Socket}
use networking_programming_p.Dispatcher.Rooms.Leave.{farewell_packets}
use networking_programming_p.Client.{Partner, Client, with_msg_lem}
use networking_programming_p.Client.Handlers.{
  drop_user, list_size, with_count, partner_at, add_partner, got_partners, got_chatroom_users_list,
  put_newcomer, user_has_joined_chatroom,
}
use networking_programming_p.Client.Partners.{LacksPartner, user_has_left_chatroom-listed}
use networking_programming_p.Client.Run.{switch, round}
use networking_programming_p.Client.Delivered.{
  delivered, IsReadable, read_msg-leftover, moved, round_heard, delivered-command_hit,
  delivered-msg_last,
}
use networking_programming_p.Client.Handlers

farewell_bytes :
    (s : Socket) (name : Str) (rest : List ℕ)
    → (s == 0) ≡ false
    → delivered s (farewell_packets s name) ++ rest
      ≡ command_bytes user_has_left_chatroom ++ (msg_bytes name ++ rest)
farewell_bytes s name rest z = rw z (rw (delivered-command_hit, delivered-msg_last, append_assoc))

-- A client that has left its room.
abbrev pub in_no_room : Client → Client
in_no_room c = record c {
  is_in_session = false;
  is_in_chat_room = false;
  is_room_owner = false;
  chatroom_partners = [];
  chat_name = [];
}

-- When what the dispatcher sends a member of another that leaves arrives in one portion, that
-- client has, after one round, lost the first partner of that name, and is otherwise as it was: if
-- the name is readable and not the client's own, and a partner has it.
pub round-farewell_packets :
    (s : Socket) (name : Str) (c : Client) (before after : List Partner) (p : Partner)
    (rest : List ℕ) (q : List Arrival)
    → (s == 0) ≡ false
    → IsReadable name
    → str_eq name c.client_name ≡ false
    → c.chatroom_partners ≡ before ++ (p ∷ after)
    → LacksPartner name before
    → str_eq p.name name ≡ true
    → c.inbox ≡ chunk (delivered s (farewell_packets s name) ++ rest) ∷ q
    → round c ≡ some (record c { inbox = leftover rest q; chatroom_partners = before ++ after })
unfolding switch
round-farewell_packets s name c before after p rest q z n o l b k e =
    let bytes = msg_bytes name ++ rest in
    round_heard user_has_left_chatroom bytes q c refl (omega arith)
      (e ∙ ap (λ bs. chunk bs ∷ q) (farewell_bytes s name rest z))
    ∙ user_has_left_chatroom-listed (moved (leftover bytes q) c) name (leftover rest q) before p
        after (read_msg-leftover name rest q n) o l b k

-- The client that is told that it has left itself is in no room any more, and has no partners.
pub round-own_farewell :
    (s : Socket) (name : Str) (c : Client) (rest : List ℕ) (q : List Arrival)
    → (s == 0) ≡ false
    → IsReadable name
    → str_eq name c.client_name ≡ true
    → c.inbox ≡ chunk (delivered s (farewell_packets s name) ++ rest) ∷ q
    → round c ≡ some (in_no_room (moved (leftover rest q) c))
unfolding switch Handlers.user_has_left_chatroom drop_user
round-own_farewell s name c rest q z n o e =
    let bytes = msg_bytes name ++ rest in
    round_heard user_has_left_chatroom bytes q c refl (omega arith)
      (e ∙ ap (λ bs. chunk bs ∷ q) (farewell_bytes s name rest z))
    ∙ with_msg_lem drop_user (moved (leftover bytes q) c) name (leftover rest q)
        (read_msg-leftover name rest q n)
    ∙ rw o refl
