-- ===== src/Conversation/Gathering/Closing.antt =====
-- The owner of a chat room leaves it, and the room is closed (ServerSide/src/Dispatcher.cpp,
-- leave_chatroom, and ClientSide/src/Client.cpp, chatroomWasClosed).
use networking_programming_p.Base.{
  ℕ, ◌≡◌, refl, sym, ap, subst, ◌∙◌, Str, List, [], ◌∷◌, ◌++◌, Option, none, some, Bool, true,
  arith, All, str_eq, str_eq_refl, drop-append, if◌then◌else◌,
}
use networking_programming_p.Wire.{Arrival, chunk, leftover, read_command}
use networking_programming_p.Wire.RoundTrip.{read_command-command_bytes}
use networking_programming_p.OrderedMap.{OrderedMap, find}
use networking_programming_p.OrderedMap.Laws.{find-erase}
use networking_programming_p.Protocol.{leave_chatroom as leave_command, connection_error}
use networking_programming_p.Dispatcher.State.{Pointer, Socket, User, ChatRoom, World, update}
use networking_programming_p.Dispatcher.Monad.{◌>>=◌, command_packets}
use networking_programming_p.Dispatcher.Steps.{send}
use networking_programming_p.Dispatcher.Caller.{scan_users}
use networking_programming_p.Dispatcher.Rooms.{leave_chatroom}
use networking_programming_p.Dispatcher.Rooms.Join.{HasMembersAt}
use networking_programming_p.Dispatcher.Rooms.Leave.{
  closed_packets, closed, left, departed, leave_chatroom_lem,
}
use networking_programming_p.Dispatcher.Loop.{handle}
use networking_programming_p.Dispatcher.Loop
use networking_programming_p.Dispatcher.Taken.{
  taken, round-handle, taken-caller, taken-members, taken-found, rooms-taken,
}
use networking_programming_p.Client.{Client}
use networking_programming_p.Client.Handlers
use networking_programming_p.Client.Run.{round, no_session}
use networking_programming_p.Client.Delivered.{delivered}
use networking_programming_p.Conversation.{news, hearing}
use networking_programming_p.Conversation.Leaving.{news-close_session}
use networking_programming_p.Conversation.Gathering.{
  Gathering, IsGathered, IsThere, AreApart, socket_of, departing, sent_since,
}
use networking_programming_p.Conversation.Gathering.Splits.{All-at, All-splits}
use networking_programming_p.Conversation.Gathering.Apart.{AreApart-before, AreApart-after}
use networking_programming_p.Conversation.Gathering.Notices.{
  closed_packets-eq, delivered-closed_member, IsFree, All-IsFree, IsOut, closed-IsOut, round-closed,
}

-- An owner that can leave the room, with all who are there.
pub record CanClose (room : Pointer) (g : Gathering) (caller : Pointer)
    (before after : OrderedMap Pointer) : Type 0 where
  pub caller_is :
      scan_users g.world.users (g.world.users caller).socket none g.world.users_map ≡ some caller
  pub is_member : g.roster ≡ before ++ (((g.world.users caller).name, caller) ∷ after)
  pub is_owner : str_eq (g.world.rooms room).owner (g.world.users caller).name ≡ true
  pub in_session : (g.clients (g.world.users caller).socket).is_in_session ≡ true
  pub in_chat_room : (g.clients (g.world.users caller).socket).is_in_chat_room ≡ true

module _ (room : Pointer) (g : Gathering) (caller : Pointer) (before after : OrderedMap Pointer)
    (rest : List ℕ) (q : List Arrival) (inv : IsGathered room g)
    (can : CanClose room g caller before after) where
  abbrev sock : Socket
  sock = socket_of g caller

  abbrev v : World
  v = taken sock (leftover rest q) g.world

  abbrev over : World
  over = closed caller room g.roster v

  there : IsThere room g.world g.clients ((g.world.users caller).name, caller)
  there = All-at _ before _ after (subst (All _) can.is_member inv.are_there)

  caller_eq : v.users caller ≡ g.world.users caller
  caller_eq = taken-caller sock (leftover rest q) g.world caller inv.consistent can.caller_is

  room_members : HasMembersAt g.roster v (some room)
  unfolding taken
  room_members = (inv.members_are, inv.are_connected)

  is_owner : str_eq (v.rooms room).owner (v.users caller).name ≡ true
  is_owner =
      ap (λ (rooms : Pointer → ChatRoom). str_eq (rooms room).owner (v.users caller).name)
        (rooms-taken sock (leftover rest q) g.world)
      ∙ ap (λ (u : User). str_eq (g.world.rooms room).owner u.name) caller_eq
      ∙ can.is_owner

  room_eq : (v.users caller).connected_to_chat_room ≡ some room
  room_eq = ap (λ (u : User). u.connected_to_chat_room) caller_eq ∙ there.room_is

  closing : leave_chatroom g.world.next_user v ≡ some (tt, over)
  closing =
      leave_chatroom_lem v g.world.next_user caller g.roster
        (taken-found sock (leftover rest q) g.world caller inv.consistent can.caller_is)
        (subst (HasMembersAt g.roster v) (sym room_eq) room_members)
      ∙ ap (λ (b : Bool). outcome b (v.users caller).connected_to_chat_room)
          (ap (λ (u : User). u.connection_status) caller_eq ∙ there.status)
      ∙ ap (outcome true) room_eq
      ∙ ap (λ (b : Bool). some (tt, if b then over else left caller room g.roster v)) is_owner
    where
      outcome : Bool → Option Pointer → Option (Unit {0} × World)
      outcome flag o = some (
        tt,
        if flag
            then departed g.world.next_user caller g.roster v o
            else send (command_packets (v.users g.world.next_user).socket connection_error) v,
      )

  ran :
      g.world.inbox sock ≡ chunk (news (g.clients sock) (departing g caller) ++ rest) ∷ q
      → Loop.round sock g.world ≡ some (tt, over)
  unfolding handle ◌>>=◌
  ran e =
      round-handle sock leave_command (leftover rest q) g.world there.is_socket (
        ap read_command (
          e
          ∙ ap (λ bs. chunk bs ∷ q)
              (news-close_session (g.clients sock) rest can.in_session can.in_chat_room))
        ∙ read_command-command_bytes leave_command rest q (omega arith))
      ∙ closing

  sent-closed : sent_since g.world over ≡ closed_packets g.world.users g.roster
  unfolding closed taken
  sent-closed =
      drop-append g.world.sent _
      ∙ closed_packets-eq v.users g.world.users g.roster (
          taken-members sock (leftover rest q) g.world caller inv.consistent can.caller_is g.roster
            inv.are_connected)

  closed-IsFree : All (λ (e : Str × Pointer). IsFree (over.users e.1)) g.roster
  unfolding closed
  closed-IsFree = All-IsFree v.users g.roster

  room_gone : find (g.world.rooms room).name over.chatrooms_map ≡ none
  unfolding closed taken
  room_gone =
      find-erase (g.world.rooms room).name (g.world.rooms room).name g.world.chatrooms_map
      ∙ rw (str_eq_refl (g.world.rooms room).name) refl

  -- What the client of each member makes of it.
  hears :
      (b a : OrderedMap Pointer) (u : Str) (p : Pointer) (c : Client)
      → g.roster ≡ b ++ ((u, p) ∷ a)
      → (d : Client) × (round (hearing (socket_of g p) (sent_since g.world over) c) ≡ some d)
        × IsOut d
  hears b a u p c split =
      let it : IsThere room g.world g.clients (u, p) =
        All-at _ b (u, p) a (subst (All _) split inv.are_there) in
      let alone = subst (AreApart g.world.users) split inv.are_apart in
      (
        no_session (Handlers.chatroom_was_closed (record c { inbox = [] })),
        round-closed (hearing (socket_of g p) (sent_since g.world over) c) (
            ap (λ bs. chunk bs ∷ [])
              (ap (delivered (socket_of g p))
                  (sent-closed ∙ ap (closed_packets g.world.users) split)
                ∙ delivered-closed_member g.world.users b a u p it.is_socket
                    (AreApart-before g.world.users b u p a alone)
                    (AreApart-after g.world.users b u p a alone))),
        closed-IsOut (record c { inbox = [] }),
      )

-- When what the client of a room's owner writes to close its session arrives at the dispatcher, it
-- answers without a fault: the room is gone from the map, everybody who was there is in no room,
-- and each of their clients, in one round with what is sent to it, comes to be in no session and no
-- room and has no partners.
pub round-closing :
    (room : Pointer) (g : Gathering) (caller : Pointer) (before after : OrderedMap Pointer)
    (rest : List ℕ) (q : List Arrival)
    → IsGathered room g
    → CanClose room g caller before after
    → g.world.inbox (socket_of g caller)
      ≡ chunk (news (g.clients (socket_of g caller)) (departing g caller) ++ rest) ∷ q
    → (v : World) × (Loop.round (socket_of g caller) g.world ≡ some (tt, v))
      × (find (g.world.rooms room).name v.chatrooms_map ≡ none)
      × All (λ (e : Str × Pointer). IsFree (v.users e.1)) g.roster
      × All
          (λ (e : Str × Pointer).
            (c : Client) × (round (
                hearing
                  (socket_of g e.1)
                  (sent_since g.world v)
                  (update g.clients (socket_of g caller) (departing g caller) (socket_of g e.1)))
              ≡ some c)
            × IsOut c)
          g.roster
round-closing room g caller before after rest q inv can e = (
  over room g caller before after rest q inv can,
  ran room g caller before after rest q inv can e,
  room_gone room g caller before after rest q inv can,
  closed-IsFree room g caller before after rest q inv can,
  All-splits _ g.roster (λ b x a split.
      hears room g caller before after rest q inv can b a x.0 x.1
        (update g.clients (socket_of g caller) (departing g caller) (socket_of g x.1)) split),
)
