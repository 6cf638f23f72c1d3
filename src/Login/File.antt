-- ===== src/Login/File.antt =====
-- users.txt: one line for each account, the name and the password with a space between them
-- (LoginAndSignUp::getAllUsers and the loops of login and signup).
use networking_programming_p.Base.{
  ℕ, Str, List, [], ◌∷◌, ◌++◌, Option, none, some, Bool, true, false, str_eq, ◌==◌, if◌then◌else◌,
  map,
}

-- The file: its bytes if it exists, and whether it can be opened for appending.
pub record UsersFile : Type 0 where
  pub content : Option Str
  pub writable : Bool

-- A byte before the first of some lines.
abbrev pub prepend : ℕ → List Str → List Str
prepend c [] = (c ∷ []) ∷ []
prepend c (l ∷ ls) = (c ∷ l) ∷ ls

-- What repeated calls of getline give.
unfoldable pub lines : Str → List Str
lines [] = []
lines (c ∷ s) = let rest = lines s in if c == b'\n' then [] ∷ rest else prepend c rest

-- The lines that can be read: none, if the file cannot be opened.
unfoldable pub lines_of : UsersFile → List Str
lines_of f = elim f.content [ none ↦ [] | some s ↦ lines s ]

-- The loop of getAllUsers over a line: the bytes before the first space.
unfoldable pub name_of : Str → Str
name_of [] = []
name_of (c ∷ s) = let rest = c ∷ name_of s in if c == b' ' then [] else rest

-- LoginAndSignUp::getAllUsers
unfoldable pub get_all_users : UsersFile → List Str
get_all_users f = map name_of (lines_of f)

-- The line of an account: name + " " + pass
unfoldable pub account_line : Str → Str → Str
account_line name pass = name ++ (b' ' ∷ pass)

unfoldable pub has_line : Str → List Str → Bool
has_line line [] = false
has_line line (l ∷ ls) = if str_eq l line then true else has_line line ls

-- `flag` of LoginAndSignUp::login
unfoldable pub has_account : Str → Str → UsersFile → Bool
has_account name pass f = has_line (account_line name pass) (lines_of f)

-- `line_name` of signup after a line: a word that a space has ended, or bytes that the next line
-- will be added to.
pub data Scanned : Type 0 where
  word : Str → Scanned
  pending : Str → Scanned

unfoldable pub scan_line : Str → Str → Scanned
scan_line line_name [] = pending line_name
scan_line line_name (c ∷ s) =
    let rest = scan_line (line_name ++ (c ∷ [])) s in if c == b' ' then word line_name else rest

-- The loop of signup over the lines.
unfoldable pub scan_lines : Str → Str → List Str → Bool
scan_lines name line_name [] = false
scan_lines name line_name (l ∷ ls) = elim (scan_line line_name l) [
  | word w ↦ let rest = scan_lines name [] ls in if str_eq w name then true else rest
  | pending p ↦ scan_lines name p ls
]

-- `flag` of LoginAndSignUp::signup
unfoldable pub is_taken : Str → UsersFile → Bool
is_taken name f = scan_lines name [] (lines_of f)

abbrev pub content_or_empty : Option Str → Str
content_or_empty none = []
content_or_empty (some s) = s

-- The end of signup: the line is appended, if the file can be opened for that.
unfoldable pub append_account : Str → Str → UsersFile → UsersFile
append_account name pass f =
    if f.writable
    then record f {
      content = some (content_or_empty f.content ++ (account_line name pass ++ (b'\n' ∷ [])));
    }
    else f
