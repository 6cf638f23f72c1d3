-- ===== src/Conversation/Gathering/Creating.antt =====
-- A user opens a chat room that is not there yet, and is alone in it (ServerSide/src/Dispatcher.cpp,
-- join_chatroom and create_chatroom, and ClientSide/src/Client.cpp, CreateChatRoom and run).
use networking_programming_p.Base.{
  ℕ, ◌≡◌, refl, sym, ap, subst, ◌∙◌, Str, List, [], ◌∷◌, ◌++◌, Option, none, some, true, false,
  arith, ◌==◌, ==_refl, str_eq, str_eq_refl, inl, inr, drop-append,
}
use networking_programming_p.Wire.{Arrival, chunk, leftover, read_command, read_msg, msg_bytes}
use networking_programming_p.Wire.RoundTrip.{read_command-command_bytes}
use networking_programming_p.OrderedMap.{find}
use networking_programming_p.Protocol.{open_chatroom, chatroom_created}
use networking_programming_p.Dispatcher.State.{Pointer, Socket, User, World}
use networking_programming_p.Dispatcher.Monad.{◌>>=◌, command_packets}
use networking_programming_p.Dispatcher.Steps.{consumed, update_self}
use networking_programming_p.Dispatcher.Caller.{scan_users}
use networking_programming_p.Dispatcher.Consistency.{IsConsistent}
use networking_programming_p.Dispatcher.Rooms.{owner_name, join_chatroom}
use networking_programming_p.Dispatcher.Rooms.Create.{made, created}
use networking_programming_p.Dispatcher.Rooms.Join.{HasMembersAt, joined, join_chatroom_lem}
use networking_programming_p.Dispatcher.Loop.{handle}
use networking_programming_p.Dispatcher.Loop
use networking_programming_p.Dispatcher.Taken.{
  taken, round-handle, taken-socket, taken-caller, taken-heard, taken-found,
}
use networking_programming_p.Client.{Client}
use networking_programming_p.Client.Requests.{create_chat_room}
use networking_programming_p.Client.Run.{round, switch}
use networking_programming_p.Client.Delivered.{
  delivered, IsReadable, IsPrintable, read_msg-leftover, round_heard, delivered-command_hit,
}
use networking_programming_p.Conversation.{news, hearing}
use networking_programming_p.Conversation.Entering.{news-create_chat_room}
use networking_programming_p.OrderedMap.Laws.{find-insert}
use networking_programming_p.Conversation.Gathering.{sent_since}
use networking_programming_p.Dispatcher.Rooms.Owner.{owner_name_lem}

-- A request for a room that is not there, which the dispatcher can grant.
pub record CanCreate (w : World) (clients : Socket → Client) (caller : Pointer) (room_name : Str)
    : Type 0 where
  pub consistent : IsConsistent w
  pub connected : ((w.users caller).socket == 0) ≡ false
  pub caller_is : scan_users w.users (w.users caller).socket none w.users_map ≡ some caller
  pub named : find (w.users caller).name w.users_map ≡ some caller
  pub room_free : find room_name w.chatrooms_map ≡ none
  pub room_readable : IsReadable room_name
  pub caller_readable : IsReadable (w.users caller).name
  pub caller_printable : IsPrintable (w.address (w.users caller).socket)
  pub other_name : str_eq (w.users caller).name room_name ≡ false
  pub own_name : (clients (w.users caller).socket).client_name ≡ (w.users caller).name
  pub no_partners : (clients (w.users caller).socket).chatroom_partners ≡ []

-- The client that was told that its room was made.
abbrev pub owning : Client → Client
owning c = record c {
  inbox = [];
  is_in_chat_room = true;
  is_room_owner = true;
  is_in_session = true;
}

module _ (w : World) (clients : Socket → Client) (caller : Pointer) (room_name : Str)
    (rest : List ℕ) (q : List Arrival) (can : CanCreate w clients caller room_name) where
  abbrev sock : Socket
  sock = (w.users caller).socket

  abbrev name : Str
  name = (w.users caller).name

  abbrev v : World
  v = taken sock (leftover (msg_bytes room_name ++ rest) q) w

  unfoldable pub opened : World
  opened = created w.next_user caller room_name (consumed sock (leftover rest q) v)

  caller_eq : v.users caller ≡ w.users caller
  caller_eq = taken-caller sock _ w caller can.consistent can.caller_is

  own_socket : (v.users w.next_user).socket ≡ sock
  own_socket = taken-socket sock _ w

  found : scan_users v.users (v.users w.next_user).socket none v.users_map ≡ some caller
  found = taken-found sock _ w caller can.consistent can.caller_is

  room_free : find room_name v.chatrooms_map ≡ none
  unfolding taken
  room_free = can.room_free

  opening : join_chatroom w.next_user v ≡ some (tt, opened)
  unfolding opened
  opening =
      join_chatroom_lem v w.next_user caller room_name (leftover rest q) []
        (ap read_msg (taken-heard sock _ w caller can.consistent can.caller_is)
          ∙ read_msg-leftover room_name rest q can.room_readable)
        found (subst (HasMembersAt [] v) (sym room_free) tt)
      ∙ ap
          (λ (s : Socket). some (
            tt,
            joined w.next_user caller room_name [] (consumed s (leftover rest q) v)
                (find room_name v.chatrooms_map),
          ))
          own_socket
      ∙ ap
          (λ (o : Option Pointer).
            some (tt, joined w.next_user caller room_name [] (consumed sock (leftover rest q) v) o))
          room_free

  pub opened_by :
      w.inbox sock
        ≡ chunk (news (clients sock) (create_chat_room room_name (clients sock)) ++ rest) ∷ q
      → Loop.round sock w ≡ some (tt, opened)
  unfolding handle ◌>>=◌
  opened_by e =
      round-handle sock open_chatroom (leftover (msg_bytes room_name ++ rest) q) w can.connected (
        ap read_command (e ∙ ap (λ bs. chunk bs ∷ q) (news-create_chat_room room_name _ rest))
        ∙ read_command-command_bytes open_chatroom _ q (omega arith))
      ∙ opening

  owner_is : owner_name v.users (v.users w.next_user).socket v.users_map ≡ name
  owner_is =
      elim (owner_name_lem v.users (v.users w.next_user).socket none caller v.users_map found (
        ap (λ (u : User). u.socket == (v.users w.next_user).socket) caller_eq
        ∙ ap (λ (s : Socket). sock == s) own_socket
        ∙ ==_refl sock)) [ inl i ↦ i ∙ ap (λ (u : User). u.name) caller_eq | inr i ↦ cc ]

  pub room-opened :
      opened.rooms w.next_room ≡ record { name = room_name; owner = name; users = name ∷ [] }
  unfolding opened created made taken
  room-opened =
      update_self w.rooms w.next_room _
      ∙ ap (λ (o : Str). record { name = room_name; owner = o; users = o ∷ [] }) owner_is

  pub caller-opened : opened.users caller ≡ record (w.users caller) {
    connection_status = true;
    connected_to_chat_room = some w.next_room;
  }
  unfolding opened created taken
  caller-opened =
      update_self v.users caller _
      ∙ ap
          (λ (u : User). record u {
            connection_status = true;
            connected_to_chat_room = some w.next_room;
          })
          caller_eq

  pub rooms_map-opened : find room_name opened.chatrooms_map ≡ some w.next_room
  unfolding opened created taken
  rooms_map-opened =
      find-insert room_name room_name w.next_room w.chatrooms_map ∙ rw (str_eq_refl room_name) refl

  pub sent-opened : sent_since w opened ≡ command_packets sock chatroom_created
  unfolding opened created taken
  sent-opened =
      drop-append w.sent _ ∙ ap (λ (s : Socket). command_packets s chatroom_created) own_socket

  pub users_map-opened : opened.users_map ≡ w.users_map
  unfolding opened created taken
  users_map-opened = refl

  pub address-opened : opened.address ≡ w.address
  unfolding opened created taken
  address-opened = refl

  -- The client hears that its room was made.
  pub round-hearing_created :
      (c : Client)
      → round (hearing sock (command_packets sock chatroom_created) c) ≡ some (owning c)
  unfolding switch delivered
  round-hearing_created c =
      round_heard chatroom_created [] [] (hearing sock (command_packets sock chatroom_created) c)
        refl (omega arith)
        (ap (λ bs. chunk bs ∷ []) (delivered-command_hit sock chatroom_created []))
