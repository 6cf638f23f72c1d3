-- ===== src/Conversation/Gathering.antt =====
-- A chat room through any sequence of arrivals and departures: the room that the dispatcher keeps
-- (ServerSide/src/Dispatcher.cpp, join_chatroom and leave_chatroom) and the partners that the
-- clients keep (ClientSide/src/Client.cpp, chatroom_partners), against a list of who is there.
pub mod Splits
pub mod Apart
pub mod Creating
pub mod Created
pub mod Arriving
pub mod Enters
pub mod Entered
pub mod Departing
pub mod Leaves
pub mod Left
pub mod Runs
pub mod Progress
pub mod Notices
pub mod Closing
pub mod Tests
pub mod OpeningTests
pub mod DepartingTests
use networking_programming_p.Base.{
  ℕ, ◌^◌, ◌<◌, ◌≡◌, Str, List, [], ◌∷◌, ◌++◌, none, some, true, false, length, drop, All, ◌==◌,
  str_eq,
}
use networking_programming_p.Wire.{Arrival, chunk}
use networking_programming_p.OrderedMap.{OrderedMap, find, keys}
use networking_programming_p.Dispatcher.State.{Pointer, Socket, User, Packet, World, update}
use networking_programming_p.Dispatcher.Caller.{scan_users}
use networking_programming_p.Dispatcher.Members.{listed}
use networking_programming_p.Dispatcher.Consistency.{IsConsistent}
use networking_programming_p.Dispatcher.Rooms.Join.{AreConnected}
use networking_programming_p.Dispatcher.Loop
use networking_programming_p.Client.{Client}
use networking_programming_p.Client.Requests.{create_chat_room, close_session}
use networking_programming_p.Client.Run.{round}
use networking_programming_p.Client.Delivered.{IsReadable, IsPrintable}
use networking_programming_p.Client.Rooms.{partners_of}
use networking_programming_p.Conversation.{news, hearing}
use networking_programming_p.Conversation.Audience.{AreElsewhere}

-- The dispatcher, the client at each socket, and who is in the room, in the order of arrival.
pub record Gathering : Type 0 where
  pub world : World
  pub clients : Socket → Client
  pub roster : OrderedMap Pointer

-- What the dispatcher has sent between two of its states.
abbrev pub sent_since : World → World → List Packet
sent_since before after = drop (length before.sent) after.sent

-- Each client of the list goes through one round with what is sent to it.
abbrev pub HaveHeard :
    World → List Packet → (Socket → Client) → (Socket → Client) → OrderedMap Pointer → Type 0
HaveHeard w packets before after members =
    All
      (λ (e : Str × Pointer).
        round (hearing (w.users e.1).socket packets (before (w.users e.1).socket))
        ≡ some (after (w.users e.1).socket))
      members

-- A user that can enter the room, by what the dispatcher and its client hold of it.
pub record CanArrive (room : Pointer) (g : Gathering) (caller : Pointer) (room_name : Str)
    : Type 0 where
  pub connected : ((g.world.users caller).socket == 0) ≡ false
  pub caller_is :
      scan_users g.world.users (g.world.users caller).socket none g.world.users_map ≡ some caller
  pub named : find (g.world.users caller).name g.world.users_map ≡ some caller
  pub room_is : find room_name g.world.chatrooms_map ≡ some room
  pub elsewhere : AreElsewhere (g.world.users caller).socket g.world.users g.roster
  pub few : length (keys g.roster) < 2 ^ 31
  pub room_readable : IsReadable room_name
  pub caller_readable : IsReadable (g.world.users caller).name
  pub caller_printable : IsPrintable (g.world.address (g.world.users caller).socket)
  pub other_name : str_eq (g.world.users caller).name (g.world.rooms room).name ≡ false
  pub own_name : (g.clients (g.world.users caller).socket).client_name ≡ (g.world.users caller).name
  pub no_partners : (g.clients (g.world.users caller).socket).chatroom_partners ≡ []

-- A user that can leave the room of another.
pub record CanDepart (room : Pointer) (g : Gathering) (caller : Pointer)
    (before after : OrderedMap Pointer) : Type 0 where
  pub caller_is :
      scan_users g.world.users (g.world.users caller).socket none g.world.users_map ≡ some caller
  pub is_member : g.roster ≡ before ++ (((g.world.users caller).name, caller) ∷ after)
  pub not_owner : str_eq (g.world.rooms room).owner (g.world.users caller).name ≡ false
  pub in_session : (g.clients (g.world.users caller).socket).is_in_session ≡ true
  pub in_chat_room : (g.clients (g.world.users caller).socket).is_in_chat_room ≡ true

abbrev pub socket_of : Gathering → Pointer → Socket
socket_of g caller = (g.world.users caller).socket

-- The client of a user once it has written the request to enter, and the one to leave.
abbrev pub arriving : Gathering → Pointer → Str → Client
arriving g caller room_name = create_chat_room room_name (g.clients (socket_of g caller))

abbrev pub departing : Gathering → Pointer → Client
departing g caller = close_session (g.clients (socket_of g caller))

-- Who is there once a user has come.
abbrev pub joined_by : Gathering → Pointer → OrderedMap Pointer
joined_by g caller = g.roster ++ (((g.world.users caller).name, caller) ∷ [])

-- A user enters or leaves: its client writes the request, the dispatcher goes through a round with
-- it, and the clients in the room go through one with what the dispatcher sent.
pub data Step (room : Pointer) : Gathering → Gathering → Type 0 where
  enters :
      (g : Gathering) (caller : Pointer) (room_name : Str) (rest : List ℕ) (q : List Arrival)
      (v : World) (clients : Socket → Client)
      → CanArrive room g caller room_name
      → g.world.inbox (socket_of g caller)
        ≡ chunk (news (g.clients (socket_of g caller)) (arriving g caller room_name) ++ rest) ∷ q
      → Loop.round (socket_of g caller) g.world ≡ some (tt, v)
      → HaveHeard g.world
          (sent_since g.world v)
          (update g.clients (socket_of g caller) (arriving g caller room_name))
          clients
          (joined_by g caller)
      → Step room g (record { world = v; clients = clients; roster = joined_by g caller })
  leaves :
      (g : Gathering) (caller : Pointer) (before after : OrderedMap Pointer) (rest : List ℕ)
      (q : List Arrival) (v : World) (clients : Socket → Client)
      → CanDepart room g caller before after
      → g.world.inbox (socket_of g caller)
        ≡ chunk (news (g.clients (socket_of g caller)) (departing g caller) ++ rest) ∷ q
      → Loop.round (socket_of g caller) g.world ≡ some (tt, v)
      → HaveHeard g.world
          (sent_since g.world v)
          (update g.clients (socket_of g caller) (departing g caller))
          clients
          g.roster
      → Step room g (record { world = v; clients = clients; roster = before ++ after })

pub data Reach (room : Pointer) (g : Gathering) : Gathering → Type 0 where
  here : Reach room g g
  next : {h k : Gathering} → Reach room g h → Step room h k → Reach room g k

-- No two of the members have one socket.
abbrev pub AreApart : (Pointer → User) → OrderedMap Pointer → Type 0
AreApart users [] = Unit
AreApart users ((u, p) ∷ members) =
    AreElsewhere (users p).socket users members × AreApart users members

-- One on the list is in the room by what the dispatcher and its client hold of it.
pub record IsThere (room : Pointer) (w : World) (clients : Socket → Client) (e : Str × Pointer)
    : Type 0 where
  pub is_socket : ((w.users e.1).socket == 0) ≡ false
  pub readable : IsReadable e.0
  pub printable : IsPrintable (w.address (w.users e.1).socket)
  pub status : (w.users e.1).connection_status ≡ true
  pub room_is : (w.users e.1).connected_to_chat_room ≡ some room
  pub own_name : (clients (w.users e.1).socket).client_name ≡ e.0

-- The dispatcher's room is the list of who is there, and each of them has the others as its
-- partners, in the order of arrival, at the addresses that the server sees.
pub record IsGathered (room : Pointer) (g : Gathering) : Type 0 where
  pub consistent : IsConsistent g.world
  pub members_are : (g.world.rooms room).users ≡ keys g.roster
  pub not_listed : listed (g.world.rooms room).name (keys g.roster) ≡ false
  pub are_connected : AreConnected g.world.users_map g.roster
  pub are_apart : AreApart g.world.users g.roster
  pub are_there : All (IsThere room g.world g.clients) g.roster
  pub partners :
      (before after : OrderedMap Pointer) (u : Str) (p : Pointer)
      → g.roster ≡ before ++ ((u, p) ∷ after)
      → (g.clients (g.world.users p).socket).chatroom_partners
        ≡ partners_of g.world.users g.world.address (before ++ after)
