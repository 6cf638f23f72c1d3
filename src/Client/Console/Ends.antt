-- ===== src/Client/Console/Ends.antt =====
-- When the console of the client comes to its end (ClientSide/src/Client.cpp, main).
use networking_programming_p.Base.{
  ℕ, zero, suc, ◌≡◌, refl, sym, subst, ◌≤◌, Str, [], Option, none, some, Bool, Bool-cases, true,
  false, inl, inr, codes, str_eq, if◌then◌else◌, length, arith,
}
use networking_programming_p.Console.Laws.{
  IsExhausted, next_word-length, next_word-shorter, next_word-exhausted, next_line-length,
}
use networking_programming_p.Console.{next_word, skip_spaces}
use networking_programming_p.Client.{Client}
use networking_programming_p.Client.Requests.{close}
use networking_programming_p.Client.Console.{
  Cli, Outcome, fault, working, ended, after, loop, serve, connect, log_in, register, if_connected,
  list_room, open_peer, open_room, send_line, with_result, with_client, read_line, say,
  without_space, read_ip, read_username, read_password, read_room_name, read_peer_usr,
}

-- No more is left to read than before.
unfoldable IsWithin : ℕ → Option Cli → Type 0
IsWithin n none = Unit
IsWithin n (some s) = length s.input ≤ n

IsWithin-branch :
    (n : ℕ) (b : Bool) (x y : Option Cli)
    → IsWithin n x
    → IsWithin n y
    → IsWithin n (if b then x else y)
IsWithin-branch n true x y p q = p
IsWithin-branch n false x y p q = q

module _ (s : Cli) where
  read_username-length : length (read_username s).input ≤ length s.input
  read_username-length = next_word-length s.username s.input

  read_password-length : length (read_password s).input ≤ length s.input
  read_password-length = next_word-length s.password s.input

credentials-length : (s : Cli) → length (read_password (read_username s)).input ≤ length s.input
credentials-length s = omega (arith, read_username-length s, read_password-length (read_username s))

with_result-IsWithin :
    (n : ℕ) (s : Cli) (o : Option Client) → length s.input ≤ n → IsWithin n (with_result s o)
unfolding IsWithin
with_result-IsWithin n s none h = tt
with_result-IsWithin n s (some c) h = h

-- What each branch leaves to read.
module _ (s : Cli) where
  unchanged-IsWithin : IsWithin (length s.input) (some s)
  unfolding IsWithin
  unchanged-IsWithin = omega arith

  register-IsWithin : IsWithin (length s.input) (some (register s))
  unfolding register IsWithin
  register-IsWithin = ground (arith, credentials-length s)

  list_room-IsWithin : IsWithin (length s.input) (some (list_room s))
  unfolding list_room IsWithin
  list_room-IsWithin = ground (arith, next_word-length s.room_name s.input)

  if_connected-IsWithin :
      (f : Client → Client) → IsWithin (length s.input) (some (if_connected f s))
  unfolding if_connected IsWithin
  if_connected-IsWithin f = ground arith

  log_in-IsWithin : IsWithin (length s.input) (some (log_in (read_password (read_username s))))
  unfolding log_in IsWithin
  log_in-IsWithin = ground (arith, credentials-length s)

  open_peer-IsWithin : IsWithin (length s.input) (some (open_peer (read_peer_usr s)))
  unfolding open_peer IsWithin
  open_peer-IsWithin = ground (arith, next_word-length s.peer_usr s.input)

  open_room-IsWithin : IsWithin (length s.input) (some (open_room (read_room_name s)))
  unfolding open_room IsWithin
  open_room-IsWithin = ground (arith, next_word-length s.room_name s.input)

  connect-IsWithin : IsWithin (length s.input) (some (connect (read_ip s)))
  unfolding connect IsWithin
  connect-IsWithin = next_word-length s.ip s.input

  close-IsWithin : IsWithin (length s.input) (some (with_client s (close s.client)))
  unfolding IsWithin
  close-IsWithin = omega arith

  say-IsWithin : IsWithin (length s.input) (say (without_space (read_line s)))
  say-IsWithin =
      with_result-IsWithin _ (without_space (read_line s)) _ (next_line-length s.msg s.input)

  send_line-IsWithin : IsWithin (length s.input) (send_line s)
  unfolding send_line
  send_line-IsWithin = search (IsWithin-branch, say-IsWithin, unchanged-IsWithin)

  serve-IsWithin : (command : Str) → IsWithin (length s.input) (serve command s)
  unfolding serve
  serve-IsWithin command =
      search
        (
          IsWithin-branch, unchanged-IsWithin, register-IsWithin, list_room-IsWithin,
          if_connected-IsWithin, log_in-IsWithin, open_peer-IsWithin, open_room-IsWithin,
          connect-IsWithin, close-IsWithin, send_line-IsWithin,
        )
        depth 20

-- The loop has ended, by a fault or not, or no further round changes anything.
abbrev pub HasStopped : Outcome → Type 0
HasStopped fault = Unit
HasStopped (ended s) = Unit
HasStopped (working s) = (g : ℕ) → loop g s ≡ working s

abbrev at_end : Cli → Cli
at_end s = record s { input = [] }

loop-exhausted : (f : ℕ) (s : Cli) → IsExhausted s.input → loop (suc f) s ≡ working (at_end s)
unfolding loop serve str_eq skip_spaces
loop-exhausted zero s e = rw (next_word-exhausted [] s.input e) refl
loop-exhausted (suc f) s e =
    rw (next_word-exhausted [] s.input e) (loop-exhausted f (at_end s) refl)

at_end-stuck : (s : Cli) → HasStopped (working (at_end s))
unfolding loop skip_spaces
at_end-stuck s zero = refl
at_end-stuck s (suc g) = loop-exhausted g (at_end s) refl

after-HasStopped :
    (command : Str) (n f : ℕ) (o : Option Cli)
    → IsWithin n o
    → suc n ≤ f
    → ((t : Cli) → suc (length t.input) ≤ f → HasStopped (loop f t))
    → HasStopped (after command (loop f) o)
unfolding IsWithin
after-HasStopped command n f none h b k = tt
after-HasStopped command n f (some t) h b k = elim (Bool-cases (str_eq command (codes "x"))) [
  | inl e ↦ rw e tt
  | inr e ↦ rw e (k t (omega (arith, h, b)))
]

-- The console of the client ends, or comes to a fault, or is stuck: once its loop has gone on for
-- more rounds than the input has bytes, it has ended or no further round changes anything.
pub loop-HasStopped : (f : ℕ) (s : Cli) → suc (length s.input) ≤ f → HasStopped (loop f s)
unfolding loop
loop-HasStopped zero s h = ground arith
loop-HasStopped (suc f) s h = elim (next_word-shorter [] s.input) [
  | inl e ↦ subst HasStopped (sym (loop-exhausted f s e)) (at_end-stuck s)
  | inr d ↦
      let (command, rest) = next_word [] s.input in
      after-HasStopped command (length rest) f _
        (serve-IsWithin (record s { input = rest }) command) (omega (arith, d, h))
        (loop-HasStopped f)
]
