-- ===== src/Wire/RoundTrip.antt =====
-- writeCommand and writeMsg against readCommand and readMsg (ServerSide/src/Common.h).
use networking_programming_p.Base.{
  ℕ, ◌^◌, ◌<◌, ◌≡◌, refl, append_assoc, ap, Str, List, [], ◌∷◌, ◌++◌, some, false, arith, length,
  take-append, drop-append, lt→ltb,
}
use networking_programming_p.Wire.{
  Arrival, chunk, got, portion, recv, leftover, ntohl, htonl, read_command, command_bytes,
  msg_bytes, to_size, until_nul, has_nul, c_string, read_msg, buffer_size,
}

pub ntohl-htonl : (n : ℕ) → n < 2 ^ 32 → ntohl (htonl n) ≡ n
unfolding ntohl htonl
ntohl-htonl n h = omega arith

portion-append :
    (bs rest : List ℕ) (q : List Arrival)
    → portion (length bs) (chunk (bs ++ rest) ∷ q) ≡ (got bs, leftover rest q)
unfolding portion
portion-append bs rest q = rw (take-append bs rest, drop-append bs rest)

pub recv-htonl :
    (n : ℕ) (rest : List ℕ) (q : List Arrival)
    → recv 4 (chunk (htonl n ++ rest) ∷ q) ≡ (got (htonl n), leftover rest q)
unfolding recv portion htonl
recv-htonl n rest q = refl

pub recv-htonl_alone :
    (n : ℕ) (q : List Arrival) → recv 4 (chunk (htonl n) ∷ q) ≡ (got (htonl n), q)
unfolding recv portion htonl
recv-htonl_alone n q = refl

-- A read of a whole text finds it at the head of the queue, if something is left to be read.
recv-leftover :
    (bs rest : List ℕ) (q : List Arrival)
    → recv (length bs) (leftover (bs ++ rest) q) ≡ (got bs, leftover rest q)
unfolding recv
recv-leftover [] rest q = refl
recv-leftover (b ∷ bs) rest q = ground (arith, portion-append (b ∷ bs) rest q)

-- A command below 2^32 that arrives in one portion is read back, and what follows it is left.
pub read_command-command_bytes :
    (n : ℕ) (rest : List ℕ) (q : List Arrival)
    → n < 2 ^ 32
    → read_command (chunk (command_bytes n ++ rest) ∷ q) ≡ (n, leftover rest q)
unfolding read_command command_bytes
read_command-command_bytes n rest q h =
    rw recv-htonl (unfold htonl in ap (λ m. (m, leftover rest q)) (ntohl-htonl n h))

until_nul_lem : (s : Str) → has_nul s ≡ false → until_nul s ≡ s
unfolding until_nul has_nul
until_nul_lem [] h = refl
until_nul_lem (b ∷ s) h = ground (arith, until_nul_lem s)

c_string_lem : (s : Str) → length s < buffer_size → has_nul s ≡ false → c_string s ≡ some s
unfolding c_string
c_string_lem s h k = rw (lt→ltb _ _ h, until_nul_lem s k)

pub to_size_lem : (n : ℕ) → n < 2 ^ 31 → to_size n ≡ n
unfolding to_size
to_size_lem n h = rw (lt→ltb _ _ h)

-- A message shorter than the buffer and free of NUL bytes that arrives in one portion is read
-- back, and what follows it is left.
pub read_msg-msg_bytes :
    (s : Str) (rest : List ℕ) (q : List Arrival)
    → length s < buffer_size
    → has_nul s ≡ false
    → read_msg (chunk (msg_bytes s ++ rest) ∷ q) ≡ some (s, leftover rest q)
unfolding read_msg msg_bytes
read_msg-msg_bytes s rest q h k =
    rw (append_assoc (htonl (length s)) s rest, recv-htonl)
      (rw
        (
          ntohl-htonl (length s) (omega arith),
          to_size_lem (length s) (omega arith),
          recv-leftover s rest q,
          c_string_lem s h k,
        )
        (unfold htonl in refl))
