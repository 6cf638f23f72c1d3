-- ===== src/Dispatcher/Consistency.antt =====
-- The invariant of the server's maps: every entry of users_map and chatrooms_map stands under the
-- name that its object has, and the maps are ordered.
pub mod Stable
pub mod Leads
pub mod Joining
pub mod Rounds
use networking_programming_p.Base.{ℕ, ◌≡◌, ◌<◌, Str, List, [], ◌∷◌, All}
use networking_programming_p.OrderedMap.{OrderedMap, insert, erase}
use networking_programming_p.OrderedMap.Order.{IsOrdered}
use networking_programming_p.Dispatcher.State.{Pointer, World}

-- The entries point to objects of that name below `next`.
abbrev pub AreNamed : (Pointer → Str) → Pointer → OrderedMap Pointer → Type 0
AreNamed name next m = All (λ (e : Str × Pointer). (name e.1 ≡ e.0) × (e.1 < next)) m

pub record IsConsistent (w : World) : Type 0 where
  pub users : AreNamed (λ p. (w.users p).name) w.next_user w.users_map
  pub rooms : AreNamed (λ p. (w.rooms p).name) w.next_room w.chatrooms_map
  pub users_ordered : IsOrdered w.users_map
  pub rooms_ordered : IsOrdered w.chatrooms_map
  pub sessions_ordered : IsOrdered w.in_session_with
