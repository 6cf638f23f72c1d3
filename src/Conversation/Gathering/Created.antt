-- ===== src/Conversation/Gathering/Created.antt =====
-- The gathering of a room that was just made, with its owner alone in it
-- (ServerSide/src/Dispatcher.cpp, create_chatroom, and ClientSide/src/Client.cpp, CreateChatRoom
-- and run).
use networking_programming_p.Base.{ℕ, Str, List, [], ◌∷◌}
use networking_programming_p.Wire.{Arrival}
use networking_programming_p.Dispatcher.State.{Pointer, Socket, World, update}
use networking_programming_p.Dispatcher.Loop.{handle}
use networking_programming_p.Dispatcher.Loop
use networking_programming_p.Client.{Client}
use networking_programming_p.Client.Requests.{create_chat_room}
use networking_programming_p.Conversation.Gathering.{Gathering}
use networking_programming_p.Conversation.Gathering.Creating.{CanCreate, owning, opened}

module _ (w : World) (clients : Socket → Client) (caller : Pointer) (room_name : Str)
    (rest : List ℕ) (q : List Arrival) (can : CanCreate w clients caller room_name) where
  abbrev sock : Socket
  sock = (w.users caller).socket

  abbrev name : Str
  name = (w.users caller).name

  abbrev v : World
  v = opened w clients caller room_name rest q can

  -- The room with its owner alone in it.
  abbrev pub alone : Gathering
  alone = record {
    world = v;
    clients = update clients sock (owning (create_chat_room room_name (clients sock)));
    roster = (name, caller) ∷ [];
  }
