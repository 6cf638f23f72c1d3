-- ===== src/Console/Laws.antt =====
-- What a read of the standard input leaves (ClientSide/src/Client.cpp and
-- ServerSide/src/Server.cpp, main).
use networking_programming_p.Base.{
  ℕ, suc, Str, List, [], ◌∷◌, ◌≡◌, refl, ◌≤◌, ◌⊎◌, inl, inr, Bool-cases, false, length, arith,
}
use networking_programming_p.Console.{
  is_space, skip_spaces, until_space, word_or, next_word, until_newline, next_line,
}

-- Nothing but white space is left to read.
abbrev pub IsExhausted : List ℕ → Type 0
IsExhausted input = skip_spaces input ≡ []

skip_spaces-length : (input : List ℕ) → length (skip_spaces input) ≤ length input
unfolding skip_spaces
skip_spaces-length [] = omega arith
skip_spaces-length (b ∷ bs) = ground (arith, skip_spaces-length bs)

until_space-length : (input : List ℕ) → length (until_space input).1 ≤ length input
unfolding until_space
until_space-length [] = omega arith
until_space-length (b ∷ bs) = ground (arith, until_space-length bs)

until_space-shorter :
    (b : ℕ) (bs : List ℕ)
    → is_space b ≡ false
    → suc (length (until_space (b ∷ bs)).1) ≤ suc (length bs)
unfolding until_space
until_space-shorter b bs e = rw e (omega (arith, until_space-length bs))

pub next_word-exhausted :
    (old : Str) (input : List ℕ) → IsExhausted input → next_word old input ≡ (old, [])
unfolding next_word word_or
next_word-exhausted old input e = rw e refl

-- A word that is there takes at least one byte.
pub next_word-shorter :
    (old : Str) (input : List ℕ)
    → IsExhausted input ⊎ (suc (length (next_word old input).1) ≤ length input)
unfolding next_word skip_spaces until_space word_or
next_word-shorter old [] = inl refl
next_word-shorter old (b ∷ bs) = elim (Bool-cases (is_space b)) [
  | inl e ↦
      rw e (elim (next_word-shorter old bs) [ inl d ↦ inl d | inr h ↦ inr (omega (arith, h)) ])
  | inr e ↦ inr (rw e (until_space-shorter b bs e))
]

pub next_word-length : (old : Str) (input : List ℕ) → length (next_word old input).1 ≤ length input
next_word-length old input = elim (next_word-shorter old input) [
  | inl e ↦ rw (next_word-exhausted old input e) (omega arith)
  | inr h ↦ omega (arith, h)
]

until_newline-length : (input : List ℕ) → length (until_newline input).1 ≤ length input
unfolding until_newline
until_newline-length [] = omega arith
until_newline-length (b ∷ bs) = ground (arith, until_newline-length bs)

pub next_line-length : (old : Str) (input : List ℕ) → length (next_line old input).1 ≤ length input
unfolding next_line
next_line-length old [] = omega arith
next_line-length old (b ∷ bs) = until_newline-length (b ∷ bs)
