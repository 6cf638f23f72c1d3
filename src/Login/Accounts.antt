-- ===== src/Login/Accounts.antt =====
-- users.txt between signup, login and getAllUsers (ServerSide/src/LoginAndSignUp.cpp).
use networking_programming_p.Base.{
  ℕ, ◌≡◌, ◌≢◌, refl, sym, ◌∙◌, ap, subst, Str, List, [], ◌∷◌, ◌++◌, append_assoc, append-nil, map,
  Bool, true, false, str_eq, str_eq_iff, str_eq_refl, ◌==◌, if◌then◌else◌, arith, All, length,
  length-append, Bool-cases, inl, inr,
}
use mathlib.Core.List.{map-append}
use networking_programming_p.Dispatcher.Members.{listed}
use networking_programming_p.Login.File.{
  UsersFile, prepend, lines, lines_of, name_of, get_all_users, account_line, has_line, has_account,
  word, pending, scan_line, scan_lines, is_taken, content_or_empty, append_account,
}

-- No byte of the text is `c`.
abbrev pub Lacks : ℕ → Str → Type 0
Lacks c [] = Unit
Lacks c (b ∷ s) = ((b == c) ≡ false) × Lacks c s

-- The text is empty or ends with a newline.
abbrev pub IsTerminated : Str → Type 0
IsTerminated [] = Unit
IsTerminated (c ∷ []) = (c == b'\n') ≡ true
IsTerminated (c ∷ d ∷ s) = IsTerminated (d ∷ s)

prepend-append : (c : ℕ) (xs ys : List Str) → xs ≢ [] → prepend c (xs ++ ys) ≡ prepend c xs ++ ys
prepend-append c [] ys h = absurd (h refl)
prepend-append c (x ∷ xs) ys h = refl

prepend-ne : (c : ℕ) (xs : List Str) → prepend c xs ≢ []
prepend-ne c [] = λ e. cc
prepend-ne c (x ∷ xs) = λ e. cc

lines-ne : (c : ℕ) (s : Str) → lines (c ∷ s) ≢ []
unfolding lines
lines-ne c s = elim (Bool-cases (c == b'\n')) [
  | inl e ↦ rw e (λ h. cc)
  | inr e ↦ rw e (prepend-ne c (lines s))
]

-- Behind a newline the lines go on.
lines-append : (s t : Str) → IsTerminated s → lines (s ++ t) ≡ lines s ++ lines t
unfolding lines
lines-append [] t h = refl
lines-append (c ∷ []) t h = rw h
lines-append (c ∷ d ∷ s) t h = rw (lines-append (d ∷ s) t h) (elim (Bool-cases (c == b'\n')) [
  | inl e ↦ rw e refl
  | inr e ↦ rw e (prepend-append c (lines (d ∷ s)) (lines t) (lines-ne d s))
])

lines_line : (s : Str) → Lacks b'\n' s → lines (s ++ (b'\n' ∷ [])) ≡ s ∷ []
unfolding lines
lines_line [] h = refl
lines_line (c ∷ s) h = rw h.0 (ap (prepend c) (lines_line s h.1))

name_of-account_line : (name pass : Str) → Lacks b' ' name → name_of (account_line name pass) ≡ name
unfolding name_of account_line
name_of-account_line [] pass h = refl
name_of-account_line (c ∷ name) pass h =
    rw h.0 (ap (λ t. c ∷ t) (name_of-account_line name pass h.1))

has_line-append : (l : Str) (ls : List Str) → has_line l (ls ++ (l ∷ [])) ≡ true
unfolding has_line
has_line-append l [] = rw str_eq_refl
has_line-append l (k ∷ ls) = ground (arith, has_line-append l ls)

unfoldable pub has_space : Str → Bool
has_space [] = false
has_space (c ∷ s) = if c == b' ' then true else has_space s

-- A file that only signup has written to: it ends with a newline, and every line has a space.
pub record IsWellFormed (f : UsersFile) : Type 0 where
  pub terminated : IsTerminated (content_or_empty f.content)
  pub spaced : All (λ l. has_space l ≡ true) (lines_of f)

scan_line_lem : (acc l : Str) → has_space l ≡ true → scan_line acc l ≡ word (acc ++ name_of l)
unfolding scan_line name_of has_space
scan_line_lem acc [] h = cc
scan_line_lem acc (c ∷ l) h = elim (Bool-cases (c == b' ')) [
  | inl e ↦ rw e (ap word (sym (append-nil acc)))
  | inr e ↦ rw e (
      scan_line_lem (acc ++ (c ∷ [])) l (rw e at h)
      ∙ ap word (append_assoc acc (c ∷ []) (name_of l)))
]

scan_lines_lem :
    (name : Str) (ls : List Str)
    → All (λ l. has_space l ≡ true) ls
    → scan_lines name [] ls ≡ listed name (map name_of ls)
unfolding scan_lines listed
scan_lines_lem name [] h = refl
scan_lines_lem name (l ∷ ls) h =
    rw (scan_line_lem [] l h.0, scan_lines) (rw (scan_lines_lem name ls h.1))

-- In a well-formed file signup finds a name taken exactly if getAllUsers lists it.
pub is_taken-listed :
    (name : Str) (f : UsersFile) → IsWellFormed f → is_taken name f ≡ listed name (get_all_users f)
unfolding is_taken get_all_users
is_taken-listed name f v = scan_lines_lem name (lines_of f) v.spaced

lines_of-content : (f : UsersFile) → lines_of f ≡ lines (content_or_empty f.content)
unfolding lines_of lines
lines_of-content f = ground arith

Lacks-append : (c : ℕ) (s t : Str) → Lacks c s → Lacks c t → Lacks c (s ++ t)
Lacks-append c [] t h k = k
Lacks-append c (b ∷ s) t h k = (h.0, Lacks-append c s t h.1 k)

Lacks-account_line :
    (name pass : Str) → Lacks b'\n' name → Lacks b'\n' pass → Lacks b'\n' (account_line name pass)
unfolding account_line
Lacks-account_line name pass n p = Lacks-append b'\n' name (b' ' ∷ pass) n (refl, p)

has_space-account_line : (name pass : Str) → has_space (account_line name pass) ≡ true
unfolding has_space account_line
has_space-account_line [] pass = refl
has_space-account_line (c ∷ name) pass = ground (arith, has_space-account_line name pass)

IsTerminated-newline : (s : Str) → IsTerminated (s ++ (b'\n' ∷ []))
IsTerminated-newline [] = refl
IsTerminated-newline (c ∷ []) = refl
IsTerminated-newline (c ∷ d ∷ s) = IsTerminated-newline (d ∷ s)

spaced-append :
    (ls : List Str) (l : Str)
    → All (λ k. has_space k ≡ true) ls
    → has_space l ≡ true
    → All (λ k. has_space k ≡ true) (ls ++ (l ∷ []))
spaced-append [] l a h = (h, tt)
spaced-append (k ∷ ls) l a h = (a.0, spaced-append ls l a.1 h)

module _ (name pass : Str) (f : UsersFile) (v : IsWellFormed f) (w : f.writable ≡ true)
    (n : Lacks b'\n' name) (b : Lacks b' ' name) (p : Lacks b'\n' pass) where
  content-append_account :
      content_or_empty (append_account name pass f).content
      ≡ content_or_empty f.content ++ (account_line name pass ++ (b'\n' ∷ []))
  unfolding append_account
  content-append_account = rw w

  lines_of-append_account :
      lines_of (append_account name pass f) ≡ lines_of f ++ (account_line name pass ∷ [])
  lines_of-append_account =
      lines_of-content (append_account name pass f)
      ∙ ap lines content-append_account
      ∙ lines-append (content_or_empty f.content) (account_line name pass ++ (b'\n' ∷ []))
          v.terminated
      ∙ ap (λ ls. lines (content_or_empty f.content) ++ ls)
          (lines_line (account_line name pass) (Lacks-account_line name pass n p))
      ∙ ap (λ ls. ls ++ (account_line name pass ∷ [])) (sym (lines_of-content f))

  -- The account that signup appended is one that login finds.
  pub has_account-append_account : has_account name pass (append_account name pass f) ≡ true
  unfolding has_account
  has_account-append_account = rw lines_of-append_account (has_line-append _ (lines_of f))

  -- getAllUsers lists the new name behind those of before.
  pub get_all_users-append_account :
      get_all_users (append_account name pass f) ≡ get_all_users f ++ (name ∷ [])
  unfolding get_all_users
  get_all_users-append_account = rw lines_of-append_account (
      map-append name_of (lines_of f) (account_line name pass ∷ [])
      ∙ ap (λ n. get_all_users f ++ (n ∷ [])) (name_of-account_line name pass b))

  pub append_account-IsWellFormed : IsWellFormed (append_account name pass f)
  append_account-IsWellFormed = record {
    terminated =
        subst IsTerminated
          (append_assoc (content_or_empty f.content) (account_line name pass) (b'\n' ∷ [])
            ∙ sym content-append_account)
          (IsTerminated-newline (content_or_empty f.content ++ account_line name pass));
    spaced =
        subst (All (λ l. has_space l ≡ true)) (sym lines_of-append_account)
          (spaced-append (lines_of f) _ v.spaced (has_space-account_line name pass));
  }

listed-append_self : (name : Str) (us : List Str) → listed name (us ++ (name ∷ [])) ≡ true
unfolding listed
listed-append_self name [] = rw str_eq_refl
listed-append_self name (u ∷ us) = ground (arith, listed-append_self name us)

-- After a signup into a well-formed file that can be written, with no space in the name and no
-- newline in the name or the password: the search of login finds the pair in the file, that of
-- signup finds the name taken, getAllUsers lists the old names and then the new one, and the file
-- is well-formed.
pub append_account_lem :
    (name pass : Str) (f : UsersFile)
    → IsWellFormed f
    → f.writable ≡ true
    → Lacks b'\n' name
    → Lacks b' ' name
    → Lacks b'\n' pass
    → let g = append_account name pass f in
      (has_account name pass g ≡ true)
      × (is_taken name g ≡ true)
      × (get_all_users g ≡ get_all_users f ++ (name ∷ []))
      × IsWellFormed g
append_account_lem name pass f v w n b p = (
  has_account-append_account name pass f v w n b p,
  is_taken-listed name (append_account name pass f) formed
      ∙ ap (listed name) (get_all_users-append_account name pass f v w n b p)
      ∙ listed-append_self name (get_all_users f),
  get_all_users-append_account name pass f v w n b p,
  formed,
)
  where
    formed : IsWellFormed (append_account name pass f)
    formed = append_account-IsWellFormed name pass f v w n b p

pending_line : (acc l : Str) → has_space l ≡ false → scan_line acc l ≡ pending (acc ++ l)
unfolding scan_line has_space
pending_line acc [] h = ap pending (sym (append-nil acc))
pending_line acc (c ∷ l) h = elim (Bool-cases (c == b' ')) [
  | inl e ↦ cc (rw e at h)
  | inr e ↦
      rw e (pending_line (acc ++ (c ∷ [])) l (rw e at h) ∙ ap pending (append_assoc acc (c ∷ []) l))
]

longer : (c : ℕ) (s t : Str) → str_eq ((c ∷ s) ++ t) t ≡ false
longer c s t = elim (Bool-cases (str_eq ((c ∷ s) ++ t) t)) [
  | inl e ↦ absurd (omega (arith, ap length ((str_eq_iff ((c ∷ s) ++ t) t).0 e), length-append s t))
  | inr e ↦ e
]

-- In a file of a line with no space, which is not empty, and the line of an account whose name has
-- no space, signup finds the account's name free, though getAllUsers lists it.
pub is_taken_spoiled :
    (c : ℕ) (l name pass : Str) (f : UsersFile)
    → lines_of f ≡ (c ∷ l) ∷ account_line name pass ∷ []
    → has_space (c ∷ l) ≡ false
    → Lacks b' ' name
    → (is_taken name f ≡ false) × (listed name (get_all_users f) ≡ true)
unfolding is_taken get_all_users scan_lines listed
is_taken_spoiled c l name pass f e h b = (
  rw (e, pending_line [] (c ∷ l) h, scan_lines)
      (rw
        (
          scan_line_lem (c ∷ l) (account_line name pass) (has_space-account_line name pass),
          scan_lines,
        )
        (rw (name_of-account_line name pass b, longer c l name))),
  rw e (rw (name_of-account_line name pass b, str_eq_refl name) (ground arith)),
)
