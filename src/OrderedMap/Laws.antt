-- ===== src/OrderedMap/Laws.antt =====
-- What a lookup finds after an insertion or a removal (`std::map::operator[]`, `erase`).
use networking_programming_p.Base.{
  Str, ◌≡◌, refl, [], ◌∷◌, none, some, true, false, str_eq, str_eq_iff, arith, if◌then◌else◌, ◌⊎◌,
  inl,
}
use networking_programming_p.OrderedMap.{OrderedMap, find, contains, insert, erase}

module _ {ℓ} {V : Type ℓ} where
  pub find-insert :
      (k j : Str) (v : V) (m : OrderedMap V)
      → find j (insert k v m) ≡ (if str_eq k j then some v else find j m)
  unfolding find insert
  find-insert k j v [] = refl
  find-insert k j v ((i, w) ∷ m) =
      ground (arith, str_eq_iff k j, str_eq_iff i k, str_eq_iff i j, find-insert k j v m)

  pub find-erase :
      (k j : Str) (m : OrderedMap V) → find j (erase k m) ≡ (if str_eq k j then none else find j m)
  unfolding find erase
  find-erase k j [] = ground arith
  find-erase k j ((i, w) ∷ m) =
      ground (arith, str_eq_iff k j, str_eq_iff i k, str_eq_iff i j, find-erase k j m)

  -- `contains` and `find` agree.
  pub contains-find :
      (k : Str) (m : OrderedMap V)
      → ((contains k m ≡ false) × (find k m ≡ none))
        ⊎ ((v : V) × (contains k m ≡ true) × (find k m ≡ some v))
  unfolding find contains
  contains-find k [] = inl (refl, refl)
  contains-find k ((j, v) ∷ m) = ground (arith, contains-find k m)
