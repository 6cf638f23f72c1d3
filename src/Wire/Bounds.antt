-- ===== src/Wire/Bounds.antt =====
-- How readCommand and readMsg behave on other streams: short reads, errors, long messages.
use networking_programming_p.Base.{
  ltb, codes, if◌then◌else◌, Bool-cases, inl, inr, ◌*◌, ◌/◌, ◌-◌, ℕ, zero, suc, ◌^◌, ◌≤◌, ◌<◌, ◌≡◌,
  refl, ap, List, [], ◌∷◌, none, some, arith, length, take, drop, lt→ltb,
}
use networking_programming_p.Wire.{
  c_not, msg_body, Arrival, chunk, failure, portion, recv, written, ntohl, htonl, read_command,
  command_bytes, until_nul, c_string, msg_text, read_msg, buffer_size,
}
use networking_programming_p.Wire.RoundTrip.{recv-htonl_alone, ntohl-htonl, to_size_lem}

length-take-le {ℓ} : {A : Type ℓ} (n : ℕ) (xs : List A) → length (take n xs) ≤ n
length-take-le zero xs = omega arith
length-take-le (suc n) [] = omega arith
length-take-le (suc n) (x ∷ xs) = omega (arith, length-take-le n xs)

-- A read never puts more into the buffer than it was asked for.
recv-le : (n : ℕ) (q : List Arrival) → length (written (recv n q).0) ≤ n
unfolding recv portion
recv-le n [] = ground arith
recv-le n (failure ∷ q) = ground arith
recv-le n (chunk bs ∷ q) = ground (arith, length-take-le n bs)

c_string_short : (bs : List ℕ) → length bs < buffer_size → c_string bs ≡ some (until_nul bs)
unfolding c_string
c_string_short bs h = rw (lt→ltb _ _ h)

-- With the length read, the rest of readMsg is one read of that many bytes.
read_msg-htonl :
    (n : ℕ) (q : List Arrival) → n < 2 ^ 31 → read_msg (chunk (htonl n) ∷ q) ≡ msg_text (recv n q)
unfolding read_msg
read_msg-htonl n q h =
    rw recv-htonl_alone (rw (ntohl-htonl n (omega arith), to_size_lem n h) (unfold htonl in refl))

take_all {ℓ} : {A : Type ℓ} (n : ℕ) (xs : List A) → length xs ≤ n → take n xs ≡ xs
take_all zero [] h = refl
take_all (suc n) [] h = refl
take_all (suc n) (x ∷ xs) h = ap (λ t. x ∷ t) (take_all n xs (omega arith))
take_all zero (x ∷ xs) h = elim h [ ]

recv_all :
    (n : ℕ) (bs : List ℕ) (q : List Arrival)
    → 0 < n
    → length bs ≤ n
    → written (recv n (chunk bs ∷ q)).0 ≡ bs
unfolding recv portion
recv_all n bs q h k = ground (arith, take_all n bs k)

c_string_long : (bs : List ℕ) → buffer_size < length bs → c_string bs ≡ none
unfolding c_string
c_string_long bs h = ground arith

-- The length that the first read of readMsg gives.
abbrev pub announced : List Arrival → ℕ
announced q = ntohl (written (recv 4 q).0)

-- Whatever portions the stream arrives in, readMsg has no fault if the four bytes of the length, of
-- which the missing ones count as 0, are a number below the size of the buffer. If its first read
-- gives no byte and is no error, the result is "0"; else it is the text before the first NUL of
-- what a second read of that many bytes delivers. The stream goes on behind what was read.
pub read_msg_defined :
    (q : List Arrival)
    → announced q < buffer_size
    → read_msg q
      ≡ some (
          if ltb 0 (c_not (recv 4 q).0) then (codes "0", (recv 4 q).1) else (
            until_nul (written (recv (announced q) (recv 4 q).1).0),
            (recv (announced q) (recv 4 q).1).1,
          ))
unfolding read_msg msg_body msg_text
read_msg_defined q h = elim (Bool-cases (ltb 0 (c_not (recv 4 q).0))) [
  | inl e ↦ rw e refl
  | inr e ↦
      rw
        (
          e,
          to_size_lem (announced q) (omega arith),
          c_string_short (written (recv (announced q) (recv 4 q).1).0)
              (omega (arith, recv-le (announced q) (recv 4 q).1)),
        )
        refl
]

-- A message that announces at least the bytes that arrive next, more than 300 and in one portion,
-- overruns the buffer.
pub read_msg_overrun :
    (n : ℕ) (bs : List ℕ) (q : List Arrival)
    → n < 2 ^ 31
    → length bs ≤ n
    → buffer_size < length bs
    → read_msg (chunk (htonl n) ∷ chunk bs ∷ q) ≡ none
unfolding msg_text
read_msg_overrun n bs q h k l =
    rw (read_msg-htonl n (chunk bs ∷ q) h, recv_all n bs q (omega arith) k)
      (rw (c_string_long bs l))

-- The test of readCommand on the number of bytes read never fires.
pub read_command_unchecked :
    (q : List Arrival) → read_command q ≡ (ntohl (written (recv 4 q).0), (recv 4 q).1)
unfolding read_command
read_command_unchecked q = ground arith

-- What the first `k` of the four bytes of a number say of it, the others counting as 0.
abbrev pub read_part : ℕ → ℕ → ℕ
read_part k n = n / 2 ^ (8 * (4 - k)) * 2 ^ (8 * (4 - k))

-- A command that arrives in two portions, the first of one, two or three bytes, is read as the
-- number that has 0 for the bytes that are missing, and these are left in the stream as if they
-- began the next command.
pub read_command_split :
    (n k : ℕ) (q : List Arrival)
    → n < 2 ^ 32
    → 0 < k
    → k < 4
    → read_command (chunk (take k (command_bytes n)) ∷ chunk (drop k (command_bytes n)) ∷ q)
      ≡ (read_part k n, chunk (drop k (command_bytes n)) ∷ q)
unfolding read_command recv portion command_bytes htonl ntohl
read_command_split n zero q h l m = elim l [ ]
read_command_split n (suc zero) q h l m = ground arith
read_command_split n (suc (suc zero)) q h l m = ground arith
read_command_split n (suc (suc (suc zero))) q h l m = ground arith
read_command_split n (suc (suc (suc (suc k)))) q h l m = absurd (omega (arith, m))
