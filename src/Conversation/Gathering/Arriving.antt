-- ===== src/Conversation/Gathering/Arriving.antt =====
-- A user enters a chat room: the dispatcher's side of it (ServerSide/src/Dispatcher.cpp,
-- join_chatroom), field by field.
use networking_programming_p.Base.{
  ℕ, ◌<◌, ◌≡◌, ◌≢◌, refl, ap, ◌∙◌, Str, List, [], ◌∷◌, ◌++◌, some, true, drop, length, drop-append,
}
use networking_programming_p.Wire.{Arrival, leftover}
use networking_programming_p.OrderedMap.{OrderedMap, insert, keys}
use networking_programming_p.OrderedMap.Order.{insert-find}
use networking_programming_p.Dispatcher.State.{Pointer, User, ChatRoom, World}
use networking_programming_p.Dispatcher.Steps.{update_self, update_ne}
use networking_programming_p.Dispatcher.Members.{listed, add_member}
use networking_programming_p.Dispatcher.Members.Laws.{add_member_lem}
use networking_programming_p.Dispatcher.Rooms.Join.{entered}
use networking_programming_p.Dispatcher.Taken.{
  taken, rooms-taken, users_map-taken, taken-user, taken-caller,
}
use networking_programming_p.Conversation.Entering.{CanEnter, inside, packets, asked, inside-sent}
use networking_programming_p.Conversation.Gathering.{
  Gathering, CanArrive, IsGathered, IsThere, socket_of, sent_since,
}
use networking_programming_p.Conversation.Gathering.Splits.{All-map}

pub can_enter :
    (room : Pointer) (g : Gathering) (caller : Pointer) (room_name : Str)
    → IsGathered room g
    → CanArrive room g caller room_name
    → CanEnter g.world (socket_of g caller) caller room room_name g.roster
can_enter room g caller room_name inv can = record {
  consistent = inv.consistent;
  connected = can.connected;
  caller_is = can.caller_is;
  room_is = can.room_is;
  members_are = inv.members_are;
  members_connected = inv.are_connected;
  members_elsewhere = can.elsewhere;
  members_readable =
      All-map _ _ g.roster (λ e (t : IsThere room g.world g.clients e). (t.readable, t.printable))
        inv.are_there;
  few = can.few;
  room_readable = can.room_readable;
  caller_readable = can.caller_readable;
  caller_printable = can.caller_printable;
}

module _ (room : Pointer) (g : Gathering) (caller : Pointer) (room_name : Str) (rest : List ℕ)
    (q : List Arrival) (inv : IsGathered room g) (can : CanArrive room g caller room_name) where
  abbrev pub after_entering : World
  after_entering =
      inside g.world (socket_of g caller) caller room room_name g.roster rest q
        (can_enter room g caller room_name inv can)

  -- The world once the command was read.
  abbrev v : World
  v =
      taken (socket_of g caller)
        (leftover
          (asked g.world (socket_of g caller) caller room room_name g.roster rest q
            (can_enter room g caller room_name inv can))
          q)
        g.world

  abbrev name : Str
  name = (g.world.users caller).name

  pub caller-entered : after_entering.users caller ≡ record (g.world.users caller) {
    connection_status = true;
    connected_to_chat_room = some room;
  }
  unfolding inside entered
  caller-entered =
      update_self _ caller _
      ∙ ap (λ (u : User). record u { connection_status = true; connected_to_chat_room = some room })
          (taken-caller _ _ g.world caller inv.consistent can.caller_is)

  pub other-entered :
      (p : Pointer) → p < g.world.next_user → caller ≢ p → after_entering.users p ≡ g.world.users p
  unfolding inside entered
  other-entered p l n = update_ne _ caller p _ n ∙ taken-user _ _ g.world p l

  pub room-entered :
      after_entering.rooms room
      ≡ record (g.world.rooms room) { users = keys g.roster ++ (name ∷ []) }
  unfolding inside entered
  room-entered =
      update_self _ room _
      ∙ ap (λ (rooms : Pointer → ChatRoom). add_member (v.users caller).name (rooms room))
          (rooms-taken _ _ g.world)
      ∙ ap (λ (u : User). add_member u.name (g.world.rooms room))
          (taken-caller _ _ g.world caller inv.consistent can.caller_is)
      ∙ add_member_lem name (g.world.rooms room)
          (ap (listed (g.world.rooms room).name) inv.members_are ∙ inv.not_listed)
      ∙ ap (λ (us : List Str). record (g.world.rooms room) { users = us ++ (name ∷ []) })
          inv.members_are

  pub users_map-entered : after_entering.users_map ≡ g.world.users_map
  unfolding inside entered
  users_map-entered =
      ap (λ (m : OrderedMap Pointer). insert (v.users caller).name caller m)
        (users_map-taken _ _ g.world)
      ∙ ap (λ (u : User). insert u.name caller g.world.users_map)
          (taken-caller _ _ g.world caller inv.consistent can.caller_is)
      ∙ insert-find name caller g.world.users_map inv.consistent.users_ordered can.named

  pub address-entered : after_entering.address ≡ g.world.address
  unfolding inside entered taken
  address-entered = refl

  pub sent-entered :
      sent_since g.world after_entering
      ≡ packets g.world
          (socket_of g caller)
          caller
          room
          room_name
          g.roster
          rest
          q
          (can_enter room g caller room_name inv can)
  sent-entered =
      ap (drop (length g.world.sent)) (
        inside-sent g.world (socket_of g caller) caller room room_name g.roster rest q
          (can_enter room g caller room_name inv can))
      ∙ drop-append g.world.sent _
