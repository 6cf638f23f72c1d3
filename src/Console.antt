-- ===== src/Console.antt =====
-- The standard input of the two consoles: `cin >> word` and `getline(cin, line)` of the standard
-- library, on the bytes that are still to be read (ClientSide/src/Client.cpp and
-- ServerSide/src/Server.cpp, main). A read that fails leaves its variable as it was; all that it
-- skipped is gone, and every later read fails too.
pub mod Laws
use networking_programming_p.Base.{
  ℕ, Str, List, [], ◌∷◌, Bool, ◌||◌, ◌&&◌, leb, ◌==◌, if◌then◌else◌,
}

-- isspace
abbrev pub is_space : ℕ → Bool
is_space b = (b == 32) || (leb 9 b && leb b 13)

unfoldable pub skip_spaces : List ℕ → List ℕ
skip_spaces [] = []
skip_spaces (b ∷ bs) = let rest = skip_spaces bs in if is_space b then rest else b ∷ bs

unfoldable pub until_space : List ℕ → Str × List ℕ
until_space [] = ([], [])
until_space (b ∷ bs) =
    let (word, rest) = until_space bs in if is_space b then ([], b ∷ bs) else (b ∷ word, rest)

-- The word in front, or else the old value of the variable.
unfoldable pub word_or : Str → List ℕ → Str × List ℕ
word_or old [] = (old, [])
word_or old (b ∷ bs) = until_space (b ∷ bs)

-- cin >> word
unfoldable pub next_word : Str → List ℕ → Str × List ℕ
next_word old input = word_or old (skip_spaces input)

unfoldable pub until_newline : List ℕ → Str × List ℕ
until_newline [] = ([], [])
until_newline (b ∷ bs) =
    let (line, rest) = until_newline bs in if b == b'\n' then ([], bs) else (b ∷ line, rest)

-- getline(cin, line) behind a word: at the end of the input the word has set eofbit.
unfoldable pub next_line : Str → List ℕ → Str × List ℕ
next_line old [] = (old, [])
next_line old (b ∷ bs) = until_newline (b ∷ bs)
