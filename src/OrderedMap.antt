-- ===== src/OrderedMap.antt =====
-- `std::map<string, V>` of the C++ library as the program uses it: an association list that
-- `insert` keeps in the order of its keys, so that the list is what an iteration goes through.
pub mod Laws
pub mod Order
use networking_programming_p.Base.{
  ℕ, Str, List, [], ◌∷◌, Option, none, some, Bool, true, false, str_eq, str_lt, if◌then◌else◌,
}

abbrev pub OrderedMap {ℓ} : Type ℓ → Type ℓ
OrderedMap V = List (Str × V)

module _ {ℓ} {V : Type ℓ} where
  -- m.find(k)
  unfoldable pub find : Str → OrderedMap V → Option V
  find k [] = none
  find k ((j, v) ∷ m) = if str_eq j k then some v else find k m

  -- m.find(k) != m.end()
  unfoldable pub contains : Str → OrderedMap V → Bool
  contains k [] = false
  contains k ((j, v) ∷ m) = if str_eq j k then true else contains k m

  -- m[k] = v
  unfoldable pub insert : Str → V → OrderedMap V → OrderedMap V
  insert k v [] = (k, v) ∷ []
  insert k v ((j, w) ∷ m) =
      if str_eq j k
      then (k, v) ∷ m
      else if str_lt k j
      then (k, v) ∷ (j, w) ∷ m
      else (j, w) ∷ insert k v m

  -- m.erase(k)
  unfoldable pub erase : Str → OrderedMap V → OrderedMap V
  erase k [] = []
  erase k ((j, v) ∷ m) = let rest = erase k m in if str_eq j k then rest else (j, v) ∷ rest

  -- The keys, in the order of an iteration.
  abbrev pub keys : OrderedMap V → List Str
  keys [] = []
  keys ((j, v) ∷ m) = j ∷ keys m
