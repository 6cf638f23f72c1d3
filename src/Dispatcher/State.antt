-- ===== src/Dispatcher/State.antt =====
-- The objects of the server: users and chat rooms on a heap, the maps and vectors of the
-- dispatcher, and the network (ServerSide/src/User.h, ChatRoom.h, Dispatcher.h).
use networking_programming_p.Base.{ℕ, Str, List, [], Option, none, Bool, false, ◌==◌, if◌then◌else◌}
use networking_programming_p.Wire.{Arrival}
use networking_programming_p.Address.{SockAddr}
use networking_programming_p.OrderedMap.{OrderedMap}

-- A pointer to an object that `new` made. A field that may be NULL is an `Option Pointer`.
abbrev pub Pointer : Type 0
Pointer = ℕ

-- A TCPSocket*, where 0 is NULL.
abbrev pub Socket : Type 0
Socket = ℕ

pub record User : Type 0 where
  pub socket : Socket
  pub name : Str
  pub connection_status : Bool
  pub connected_to_user : Option Pointer
  pub connected_to_chat_room : Option Pointer

pub record ChatRoom : Type 0 where
  pub name : Str
  pub owner : Str
  pub users : List Str

-- User::User
abbrev pub new_user : User
new_user = record {
  socket = 0;
  name = [];
  connection_status = false;
  connected_to_user = none;
  connected_to_chat_room = none;
}

-- ChatRoom::ChatRoom
abbrev pub new_chat_room : ChatRoom
new_chat_room = record { name = []; owner = []; users = [] }

-- One write(2): the socket and the bytes.
abbrev pub Packet : Type 0
Packet = Socket × List ℕ

-- The dispatcher's fields with the two heaps, and its end of the network: what arrives on each
-- socket, what was sent so far, and the address of each peer.
pub record World : Type 0 where
  pub users : Pointer → User
  pub next_user : Pointer
  pub rooms : Pointer → ChatRoom
  pub next_room : Pointer
  pub users_map : OrderedMap Pointer
  pub chatrooms_map : OrderedMap Pointer
  pub in_session_with : OrderedMap Str
  pub users_vector : List Socket
  pub all_users_infile_vector : List Str
  pub status : Bool
  pub inbox : Socket → List Arrival
  pub sent : List Packet
  pub address : Socket → SockAddr

-- A function changed at one argument.
unfoldable pub update {ℓ} : {A : Type ℓ} → (ℕ → A) → ℕ → A → ℕ → A
update f p v q = if p == q then v else f q
