-- ===== src/Wire/Tests.antt =====
-- Runs of the framing.
use networking_programming_p.Base.{
  ℕ, zero, suc, ◌≡◌, refl, List, [], ◌∷◌, ◌++◌, none, some, codes, arith, take, drop,
}
use networking_programming_p.Wire.{
  Arrival, portion, ntohl, chunk, read_command, command_bytes, msg_bytes, read_msg, htonl,
  until_nul, recv, has_nul,
}
use networking_programming_p.Wire.RoundTrip.{read_msg-msg_bytes}
use networking_programming_p.Wire.Bounds.{read_msg_defined, read_msg_overrun, read_command_split}

-- A text of that many letters.
abbrev letters : ℕ → List ℕ
letters zero = []
letters (suc n) = b'a' ∷ letters n

read_msg-msg_bytes_example :
    read_msg (chunk (msg_bytes (codes "ann") ++ (7 ∷ [])) ∷ [])
    ≡ some (codes "ann", chunk (7 ∷ []) ∷ [])
unfolding has_nul
read_msg-msg_bytes_example = read_msg-msg_bytes (codes "ann") (7 ∷ []) [] (omega arith) refl

-- The length comes with the first letter of the text, and the rest later.
abbrev in_two : List Arrival
in_two = chunk (htonl 5 ++ codes "a") ∷ chunk (codes "nn") ∷ []

read_msg_defined_example : read_msg in_two ≡ some (codes "a", chunk (codes "nn") ∷ [])
unfolding recv portion ntohl htonl until_nul
read_msg_defined_example = read_msg_defined in_two (omega arith)

read_msg_overrun_example : read_msg (chunk (htonl 400) ∷ chunk (letters 301) ∷ []) ≡ none
read_msg_overrun_example =
    read_msg_overrun 400 (letters 301) [] (omega arith) (omega arith) (omega arith)

read_command_split_example :
    read_command (chunk (take 3 (command_bytes 300)) ∷ chunk (drop 3 (command_bytes 300)) ∷ [])
    ≡ (256, chunk (drop 3 (command_bytes 300)) ∷ [])
read_command_split_example = read_command_split 300 3 [] (omega arith) (omega arith) (omega arith)
