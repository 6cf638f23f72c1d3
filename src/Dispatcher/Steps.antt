-- ===== src/Dispatcher/Steps.antt =====
-- The worlds that single actions lead to, and how the actions compute.
use networking_programming_p.Base.{
  suc, refl, [], ◌∷◌, ℕ, fun_ext, ap, ◌∙◌, ◌≡◌, ◌≢◌, Str, List, ◌++◌, Option, none, some, true,
  arith, ==_refl,
}
use networking_programming_p.Wire.{Arrival, read_msg}
use networking_programming_p.OrderedMap.{OrderedMap, contains, find, insert}
use networking_programming_p.OrderedMap.Laws.{contains-find}
use networking_programming_p.Dispatcher.State.{
  User, Pointer, Socket, Packet, World, update, new_user,
}
use networking_programming_p.Dispatcher.Caller.{scan_users, current_user, add_user}
use networking_programming_p.Dispatcher.Monad.{M, ◌>>=◌, read, user_at, deref, allocate_user}

module _ {ℓ} {A : Type ℓ} where
  pub update_self : (f : ℕ → A) (p : ℕ) (v : A) → update f p v p ≡ v
  unfolding update
  update_self f p v = rw (==_refl p)

  pub update_ne : (f : ℕ → A) (p q : ℕ) (v : A) → p ≢ q → update f p v q ≡ f q
  unfolding update
  update_ne f p q v h = ground arith

  pub update-update : (f : ℕ → A) (p : ℕ) (u v : A) → update (update f p u) p v ≡ update f p v
  unfolding update
  update-update f p u v = fun_ext (λ q. ground arith)

-- A step of a do block whose outcome is known.
pub >>=_step :
    {A B : Type 0} (m : M A) (f : A → M B) {w v : World} {a : A}
    → m w ≡ some (a, v)
    → (m >>= f) w ≡ f a v
unfolding ◌>>=◌
>>=_step m f h = rw (h, ◌>>=◌)

pub >>=_fault : {A B : Type 0} (m : M A) (f : A → M B) {w : World} → m w ≡ none → (m >>= f) w ≡ none
unfolding ◌>>=◌
>>=_fault m f h = rw (h, ◌>>=◌)

-- The world with more packets sent.
abbrev pub send : List Packet → World → World
send packets w = record w { sent = w.sent ++ packets }

-- Two outcomes that differ in the packets only.
pub resent :
    (w : World) {s t : List Packet}
    → s ≡ t
    → ◌≡◌ {A = Option (Unit {0} × World)}
        (some (tt, record w { sent = s }))
        (some (tt, record w { sent = t }))
resent w e = ap (λ (p : List Packet). some (tt, record w { sent = p })) e

-- The world in which a socket's stream was read up to `q`.
abbrev pub consumed : Socket → List Arrival → World → World
consumed sock q w = record w { inbox = update w.inbox sock q }

pub read_lem :
    (sock : Socket) (w : World) (msg : Str) (q : List Arrival)
    → read_msg (w.inbox sock) ≡ some (msg, q)
    → read sock w ≡ some (msg, consumed sock q w)
unfolding read
read_lem sock w msg q h = rw (h, read)

-- Two messages in a row.
pub read_two :
    {B : Type 0} (sock : Socket) (w : World) (a b : Str) (middle rest : List Arrival)
    (f : Str → Str → M B)
    → read_msg (w.inbox sock) ≡ some (a, middle)
    → read_msg middle ≡ some (b, rest)
    → (read sock >>= λ x. read sock >>= f x) w ≡ f a b (consumed sock rest w)
read_two sock w a b middle rest f h k =
    >>=_step (read sock) _ (read_lem sock w a middle h)
    ∙ >>=_step (read sock) (f a)
        (read_lem sock (consumed sock middle w) b rest (rw (update_self w.inbox sock middle) k))
    ∙ ap (λ (q : Socket → List Arrival). f a b (record w { inbox = q }))
        (update-update w.inbox sock middle rest)

pub user_at_lem :
    (name : Str) (w : World) (p : Pointer)
    → find name w.users_map ≡ some p
    → user_at name w ≡ some (p, w)
unfolding user_at
user_at_lem name w p h = rw (h, user_at)

pub user_at_fault : (name : Str) (w : World) → find name w.users_map ≡ none → user_at name w ≡ none
unfolding user_at
user_at_fault name w h = rw (h, user_at)

pub current_user_lem :
    (sock : Socket) (w : World) (p : Pointer)
    → scan_users w.users sock none w.users_map ≡ some p
    → current_user sock w ≡ some (p, w)
unfolding current_user deref ◌>>=◌
current_user_lem sock w p h = rw (h, deref)

pub current_user_fault :
    (sock : Socket) (w : World)
    → scan_users w.users sock none w.users_map ≡ none
    → current_user sock w ≡ none
unfolding current_user deref ◌>>=◌
current_user_fault sock w h = rw (h, deref)

pub contains_of_find :
    {p : Pointer} (name : Str) (w : World)
    → find name w.users_map ≡ some p
    → contains name w.users_map ≡ true
contains_of_find name w h = ground (arith, contains-find name w.users_map)

-- The world after add_user.
unfoldable pub added : Socket → Str → World → World
added peer name w = record w {
  users = update w.users w.next_user (record new_user { socket = peer; name = name });
  next_user = suc w.next_user;
  users_map = insert name w.next_user w.users_map;
  users_vector = w.users_vector ++ (peer ∷ []);
  status = true;
}

pub add_user_lem :
    (peer : Socket) (name : Str) (w : World) → add_user peer name w ≡ some (tt, added peer name w)
unfolding add_user allocate_user ◌>>=◌ added
add_user_lem peer name w = refl

-- The loop over the users reads their sockets only.
pub scan_users-eq :
    (f g : Pointer → User) (sock : Socket) (last : Option Pointer) (m : OrderedMap Pointer)
    → ((p : Pointer) → (f p).socket ≡ (g p).socket)
    → scan_users f sock last m ≡ scan_users g sock last m
unfolding scan_users
scan_users-eq f g sock last [] h = refl
scan_users-eq f g sock last ((name, p) ∷ m) h = rw (h p, scan_users-eq f g sock (some p) m h)
