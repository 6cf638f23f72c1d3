-- ===== src/Dispatcher/Consistency/Stable.antt =====
-- The invariant under writes outside users_map, removals, and insertions of an object under its
-- name.
use networking_programming_p.Base.{
  ℕ, ◌≡◌, ◌<◌, ◌≤◌, ◌∙◌, Str, [], ◌∷◌, Option, some, arith, ◌⊎◌, inl,
}
use networking_programming_p.OrderedMap.{OrderedMap, insert, erase}
use networking_programming_p.OrderedMap.Order.{IsOrdered-insert, IsOrdered-erase}
use networking_programming_p.Dispatcher.State.{Pointer, User, ChatRoom, World, update}
use networking_programming_p.Dispatcher.Caller.{scan_users}
use networking_programming_p.Dispatcher.Keeps.{IsStable}
use networking_programming_p.Dispatcher.Consistency.{AreNamed, IsConsistent}

module _ (name : Pointer → Str) (next : Pointer) where
  pub AreNamed-insert :
      (k : Str) (p : Pointer) (m : OrderedMap Pointer)
      → name p ≡ k
      → p < next
      → AreNamed name next m
      → AreNamed name next (insert k p m)
  unfolding insert
  AreNamed-insert k p [] e l a = ((e, l), tt)
  AreNamed-insert k p ((j, q) ∷ m) e l a = ground (arith, AreNamed-insert k p m e l a.1)

  pub AreNamed-erase :
      (k : Str) (m : OrderedMap Pointer) → AreNamed name next m → AreNamed name next (erase k m)
  unfolding erase
  AreNamed-erase k [] a = tt
  AreNamed-erase k ((j, q) ∷ m) a = ground (arith, AreNamed-erase k m a.1)

  -- The user that the scan finds was there before, or stands in the map.
  pub scan_users-AreNamed :
      (users : Pointer → User) (sock : ℕ) (last : Option Pointer) (m : OrderedMap Pointer)
      (p : Pointer)
      → AreNamed name next m
      → scan_users users sock last m ≡ some p
      → (last ≡ some p) ⊎ (p < next)
  unfolding scan_users
  scan_users-AreNamed users sock last [] p a h = inl h
  scan_users-AreNamed users sock last ((j, q) ∷ m) p a h =
      ground (arith, scan_users-AreNamed users sock (some q) m p a.1)

-- Other names below a smaller bound serve as well where they agree.
pub AreNamed-change :
    (f g : Pointer → Str) (n k : Pointer) (m : OrderedMap Pointer)
    → ((p : Pointer) → p < n → g p ≡ f p)
    → n ≤ k
    → AreNamed f n m
    → AreNamed g k m
AreNamed-change f g n k [] e l a = tt
AreNamed-change f g n k ((j, q) ∷ m) e l a =
    ((e q a.0.1 ∙ a.0.0, omega arith), AreNamed-change f g n k m e l a.1)

-- Writes that keep the name of the object keep the names of all.
pub update_name :
    (w : World) (p : Pointer) (f : User → User)
    → ((u : User) → (f u).name ≡ u.name)
    → (q : Pointer) → (update w.users p (f (w.users p)) q).name ≡ (w.users q).name
unfolding update
update_name w p f k q = ground (arith, k (w.users p))

pub update_room_name :
    (w : World) (p : Pointer) (f : ChatRoom → ChatRoom)
    → ((r : ChatRoom) → (f r).name ≡ r.name)
    → (q : Pointer) → (update w.rooms p (f (w.rooms p)) q).name ≡ (w.rooms q).name
unfolding update
update_room_name w p f k q = ground (arith, k (w.rooms p))

pub IsConsistent-stable : IsStable IsConsistent
IsConsistent-stable = record {
  on_sent = λ w packets c. record {
    users = c.users;
    rooms = c.rooms;
    users_ordered = c.users_ordered;
    rooms_ordered = c.rooms_ordered;
    sessions_ordered = c.sessions_ordered;
  };
  on_inbox = λ w q c. record {
    users = c.users;
    rooms = c.rooms;
    users_ordered = c.users_ordered;
    rooms_ordered = c.rooms_ordered;
    sessions_ordered = c.sessions_ordered;
  };
  on_user = λ w p f k c. record {
    users =
        AreNamed-change _ _ w.next_user w.next_user w.users_map (λ q _. update_name w p f k q)
          (omega arith) c.users;
    rooms = c.rooms;
    users_ordered = c.users_ordered;
    rooms_ordered = c.rooms_ordered;
    sessions_ordered = c.sessions_ordered;
  };
  on_room = λ w p f k c. record {
    users = c.users;
    rooms =
        AreNamed-change _ _ w.next_room w.next_room w.chatrooms_map
          (λ q _. update_room_name w p f k q) (omega arith) c.rooms;
    users_ordered = c.users_ordered;
    rooms_ordered = c.rooms_ordered;
    sessions_ordered = c.sessions_ordered;
  };
  on_session = λ w a b c. record {
    users = c.users;
    rooms = c.rooms;
    users_ordered = c.users_ordered;
    rooms_ordered = c.rooms_ordered;
    sessions_ordered = IsOrdered-insert a b w.in_session_with c.sessions_ordered;
  };
  on_session_end = λ w a c. record {
    users = c.users;
    rooms = c.rooms;
    users_ordered = c.users_ordered;
    rooms_ordered = c.rooms_ordered;
    sessions_ordered = IsOrdered-erase a w.in_session_with c.sessions_ordered;
  };
  on_closed_room = λ w a c. record {
    users = c.users;
    rooms = AreNamed-erase _ _ a w.chatrooms_map c.rooms;
    users_ordered = c.users_ordered;
    rooms_ordered = IsOrdered-erase a w.chatrooms_map c.rooms_ordered;
    sessions_ordered = c.sessions_ordered;
  };
  on_exit = λ w a c. record {
    users = AreNamed-erase _ _ a w.users_map c.users;
    rooms = c.rooms;
    users_ordered = IsOrdered-erase a w.users_map c.users_ordered;
    rooms_ordered = c.rooms_ordered;
    sessions_ordered = c.sessions_ordered;
  };
}
