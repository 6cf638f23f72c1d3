-- ===== src/OrderedMap/Order.antt =====
-- The keys of a map stay strictly ordered, so an iteration visits each key once, in order.
use networking_programming_p.Base.{
  Str, ◌≡◌, [], ◌∷◌, true, str_lt, str_eq_iff, str_lt_trans, str_lt_total, str_lt_asymm, arith,
  some,
}
use networking_programming_p.OrderedMap.{OrderedMap, find, insert, erase}

-- Every key of `m` stands above `k`.
abbrev pub Above {ℓ} : {V : Type ℓ} → Str → OrderedMap V → Type 0
Above k [] = Unit
Above k ((j, v) ∷ m) = (str_lt k j ≡ true) × Above k m

abbrev pub IsOrdered {ℓ} : {V : Type ℓ} → OrderedMap V → Type 0
IsOrdered [] = Unit
IsOrdered ((j, v) ∷ m) = Above j m × IsOrdered m

module _ {ℓ} {V : Type ℓ} where
  Above-trans : (k j : Str) (m : OrderedMap V) → str_lt k j ≡ true → Above j m → Above k m
  Above-trans k j [] h a = tt
  Above-trans k j ((i, v) ∷ m) h a = (str_lt_trans k j i h a.0, Above-trans k j m h a.1)

  Above-insert :
      (i k : Str) (v : V) (m : OrderedMap V)
      → str_lt i k ≡ true
      → Above i m
      → Above i (insert k v m)
  unfolding insert
  Above-insert i k v [] h a = (h, tt)
  Above-insert i k v ((j, w) ∷ m) h a = ground (arith, Above-insert i k v m h a.1)

  Above-erase : (i k : Str) (m : OrderedMap V) → Above i m → Above i (erase k m)
  unfolding erase
  Above-erase i k [] a = tt
  Above-erase i k ((j, v) ∷ m) a = ground (arith, Above-erase i k m a.1)

  pub IsOrdered-insert :
      (k : Str) (v : V) (m : OrderedMap V) → IsOrdered m → IsOrdered (insert k v m)
  unfolding insert
  IsOrdered-insert k v [] o = (tt, tt)
  IsOrdered-insert k v ((j, w) ∷ m) o = ground (
    arith,
    str_eq_iff j k,
    str_lt_total j k,
    Above-trans k j m,
    Above-insert j k v m,
    IsOrdered-insert k v m o.1,
  )

  pub IsOrdered-erase : (k : Str) (m : OrderedMap V) → IsOrdered m → IsOrdered (erase k m)
  unfolding erase
  IsOrdered-erase k [] o = tt
  IsOrdered-erase k ((j, v) ∷ m) o = ground (arith, Above-erase j k m o.0, IsOrdered-erase k m o.1)

  -- A key that is found lies above every bound of the map.
  Above-find :
      (i k : Str) (v : V) (m : OrderedMap V) → Above i m → find k m ≡ some v → str_lt i k ≡ true
  unfolding find
  Above-find i k v [] a f = cc
  Above-find i k v ((j, w) ∷ m) a f = ground (arith, str_eq_iff j k, Above-find i k v m a.1)

  -- To enter what is there already changes nothing.
  pub insert-find :
      (k : Str) (v : V) (m : OrderedMap V) → IsOrdered m → find k m ≡ some v → insert k v m ≡ m
  unfolding find insert
  insert-find k v [] o f = cc
  insert-find k v ((j, w) ∷ m) o f =
      ground
        (arith, str_eq_iff j k, Above-find j k v m o.0, str_lt_asymm j k, insert-find k v m o.1)
