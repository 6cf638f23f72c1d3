-- ===== src/Dispatcher/Rooms/Create.antt =====
-- create_chatroom, as one step.
use networking_programming_p.Base.{◌≡◌, ap, ◌∙◌, suc, Str, [], ◌∷◌, ◌++◌, none, some, true}
use networking_programming_p.OrderedMap.{insert}
use networking_programming_p.Protocol.{chatroom_created}
use networking_programming_p.Dispatcher.State.{Pointer, ChatRoom, new_chat_room, World, update}
use networking_programming_p.Dispatcher.Monad.{◌>>=◌, command_packets, deref, allocate_room}
use networking_programming_p.Dispatcher.Steps.{update_self, update-update}
use networking_programming_p.Dispatcher.Caller.{scan_users}
use networking_programming_p.Dispatcher.Rooms.{owner_name, create_chatroom}

-- The room that create_chatroom makes.
unfoldable pub made : Pointer → Str → World → ChatRoom
made user name w =
    let owner = owner_name w.users (w.users user).socket w.users_map in
    record { name = name; owner = owner; users = owner ∷ [] }

-- The world after create_chatroom.
unfoldable pub created : Pointer → Pointer → Str → World → World
created user caller name w = record w {
  users = update w.users caller (record (w.users caller) {
    connection_status = true;
    connected_to_chat_room = some w.next_room;
  });
  rooms = update w.rooms w.next_room (made user name w);
  next_room = suc w.next_room;
  chatrooms_map = insert name w.next_room w.chatrooms_map;
  sent = w.sent ++ command_packets (w.users user).socket chatroom_created;
}

-- Three writes to the new object are one.
thrice :
    (f : Pointer → ChatRoom) (p : Pointer) (a : ChatRoom) (g h : ChatRoom → ChatRoom)
    → update
        (update (update f p a) p (g (update f p a p)))
        p
        (h (update (update f p a) p (g (update f p a p)) p))
      ≡ update f p (h (g a))
thrice f p a g h = rw (update_self f p a) (
    rw (update_self (update f p a) p (g a))
      (update-update (update f p a) p (g a) (h (g a)) ∙ update-update f p a (h (g a))))

-- When a last user is found for the socket, create_chatroom succeeds: a new room with the name
-- stands in chatrooms_map, with the owner's name as its owner and as its one member; the user has
-- its flag set and points to the room; and CHATROOM_CREATED is sent.
pub create_chatroom_lem :
    (user caller : Pointer) (name : Str) (w : World)
    → scan_users w.users (w.users user).socket (some user) w.users_map ≡ some caller
    → create_chatroom user name w ≡ some (tt, created user caller name w)
unfolding create_chatroom allocate_room deref ◌>>=◌ created made
create_chatroom_lem user caller name w h = rw h (
    ap (λ (g : Pointer → ChatRoom). some (tt, record (created user caller name w) { rooms = g }))
      (thrice w.rooms w.next_room new_chat_room (λ r. record r { name = name })
        (λ r. record r { owner = owner; users = r.users ++ (owner ∷ []) })))
  where
    owner : Str
    owner = owner_name w.users (w.users user).socket w.users_map

pub create_chatroom_fault :
    (user : Pointer) (name : Str) (w : World)
    → scan_users w.users (w.users user).socket (some user) w.users_map ≡ none
    → create_chatroom user name w ≡ none
unfolding create_chatroom allocate_room deref ◌>>=◌
create_chatroom_fault user name w h = rw h
