-- ===== src/Dispatcher/Members.antt =====
-- ChatRoom.cpp: the list of a room's users.
pub mod Laws
use networking_programming_p.Base.{
  ◌≡◌, refl, arith, Str, List, [], ◌∷◌, ◌++◌, Bool, true, false, str_eq, if◌then◌else◌,
}
use networking_programming_p.Dispatcher.State.{ChatRoom}

-- std::find over a vector of names
unfoldable pub listed : Str → List Str → Bool
listed name [] = false
listed name (u ∷ us) = if str_eq u name then true else listed name us

-- ChatRoom::add_user; what it looks for is the field `name` of the room.
unfoldable pub add_member : Str → ChatRoom → ChatRoom
unfolding listed
add_member user room =
    if listed room.name room.users then room else record room { users = room.users ++ (user ∷ []) }

-- The loop of ChatRoom::remove_user: after an erasure the next entry moves into the place that
-- was just examined, and the index goes past it.
unfoldable pub without : Str → List Str → List Str
without user [] = []
without user (u ∷ []) = if str_eq u user then [] else u ∷ []
without user (u ∷ v ∷ us) =
    let skipped = v ∷ without user us in
    let kept = u ∷ without user (v ∷ us) in if str_eq u user then skipped else kept

-- ChatRoom::remove_user
unfoldable pub remove_member : Str → ChatRoom → ChatRoom
unfolding without
remove_member user room = record room { users = without user room.users }

pub name-remove_member : (user : Str) (room : ChatRoom) → (remove_member user room).name ≡ room.name
unfolding remove_member
name-remove_member user room = refl

pub name-add_member : (user : Str) (room : ChatRoom) → (add_member user room).name ≡ room.name
unfolding add_member
name-add_member user room = ground arith
