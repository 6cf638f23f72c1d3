-- ===== src/Login/Interleaving.antt =====
-- The login thread and the dispatcher thread, one whole round of either after the other
-- (ServerSide/src/LoginAndSignUp.cpp and ServerSide/src/Dispatcher.cpp, the two run methods).
use mathlib.Core.Option
use networking_programming_p.Base.{
  ℕ, ◌≡◌, refl, sym, ◌∙◌, subst, Str, [], ◌∷◌, ◌++◌, Option, none, some, Bool, true, false,
  Option-cases, inl, inr, ◌==◌, if◌then◌else◌,
}
use networking_programming_p.Protocol.{
  login as login_command, signup as signup_command, login_denied, login_or_signup, username_taken,
  bad_command,
}
use networking_programming_p.Dispatcher.State.{Socket, World}
use networking_programming_p.Dispatcher.Monad.{M, modify, ◌>>◌, next_command, write_command}
use networking_programming_p.Dispatcher.Caller.{add_user, add_user_to_vector}
use networking_programming_p.Dispatcher.Loop.{round}
use networking_programming_p.Dispatcher.Keeps.{Keeps, Keeps-exact, stable_rules, some-state}
use networking_programming_p.Dispatcher.Consistency.{IsConsistent}
use networking_programming_p.Dispatcher.Consistency.Stable.{IsConsistent-stable}
use networking_programming_p.Dispatcher.Consistency.Rounds.{round-Keeps, add_user-IsConsistent}
use networking_programming_p.Login.File.{is_taken}
use networking_programming_p.Login.{
  Server, drop_peer, login, credentials, confirm, on_world, then_server, admit, registered,
  serve_login, serve_signup, add_peer, serve_command, serve,
}

-- One round of one of the two threads, for the socket that is ready, or a new peer of Server::run.
pub data Step : Server → Server → Type 0 where
  served : {s t : Server} (ready_peer : Socket) → serve ready_peer s ≡ some t → Step s t
  dispatched :
      {s : Server} (temp_sock : Socket) (w : World)
      → round temp_sock s.dispatcher ≡ some (tt, w)
      → Step s (record s { dispatcher = w })
  accepted : {s t : Server} (peer : Socket) → add_peer peer s ≡ some t → Step s t

-- Rounds of the threads in any order.
pub data Steps : Server → Server → Type 0 where
  stop : {s : Server} → Steps s s
  step : {s u : Server} (t : Server) → Step s t → Steps t u → Steps s u

add_user-Keeps : (peer : Socket) (name : Str) → Keeps IsConsistent (add_user peer name)
add_user-Keeps peer name = record {
  at = λ w v a h c.
      let (u, e, k) = add_user-IsConsistent peer name w c in
      subst IsConsistent (some-state (sym e ∙ h)) k;
}

confirm-Keeps : (peer : Socket) (username : Str) → Keeps IsConsistent (confirm peer username)
unfolding confirm
confirm-Keeps peer username = search (stable_rules, IsConsistent-stable, add_user-Keeps) depth 16

credentials-Keeps : (peer : Socket) → Keeps IsConsistent (credentials peer)
unfolding credentials
credentials-Keeps peer = search (stable_rules, IsConsistent-stable) depth 16

add_user_to_vector-Keeps : (name : Str) → Keeps IsConsistent (add_user_to_vector name)
unfolding add_user_to_vector modify
add_user_to_vector-Keeps name =
    Keeps-exact (λ w. tt)
      (λ w. record w { all_users_infile_vector = w.all_users_infile_vector ++ (name ∷ []) })
      (λ w. refl)
      (λ w c. record {
        users = c.users;
        rooms = c.rooms;
        users_ordered = c.users_ordered;
        rooms_ordered = c.rooms_ordered;
        sessions_ordered = c.sessions_ordered;
      })

write_command-Keeps : (peer : Socket) (n : ℕ) → Keeps IsConsistent (write_command peer n)
write_command-Keeps peer n = search (stable_rules, IsConsistent-stable) depth 16

next_command-Keeps : (peer : Socket) → Keeps IsConsistent (next_command peer)
next_command-Keeps peer = search (stable_rules, IsConsistent-stable) depth 16

-- A result that is undefined behaviour or consistent.
abbrev Holds : Option Server → Type 0
Holds none = Unit
Holds (some t) = IsConsistent t.dispatcher

after :
    {A : Type 0} (m : M A) (s : Server) (f : A → Server → Option Server)
    → Keeps IsConsistent m
    → IsConsistent s.dispatcher
    → ((a : A) (t : Server) → IsConsistent t.dispatcher → Holds (f a t))
    → Holds (elim (on_world m s) [ none ↦ none | some (a, t) ↦ f a t ])
unfolding on_world
after m s f k c h = elim (Option-cases (m s.dispatcher)) [
  | inl e ↦ rw e tt
  | inr ((a, w), e) ↦ rw e (h a (record s { dispatcher = w }) (k.at s.dispatcher w a e c))
]

-- What an action of the dispatcher's world makes of the server.
abbrev put : Server → Option (Unit {0} × World) → Option (Unit {0} × Server)
put s none = none
put s (some (a, w)) = some (a, record s { dispatcher = w })

then_server-Holds :
    (m : M (Unit {0})) (s : Server)
    → Keeps IsConsistent m
    → IsConsistent s.dispatcher
    → Holds (then_server (on_world m s))
unfolding on_world
then_server-Holds m s k c = elim (Option-cases (m s.dispatcher)) [
  | inl e ↦ subst (λ o. Holds (then_server (put s o))) (sym e) tt
  | inr ((a, w), e) ↦ subst (λ o. Holds (then_server (put s o))) (sym e) (k.at s.dispatcher w a e c)
]

admit-Holds :
    (peer : Socket) (m : M (Unit {0})) (s : Server)
    → Keeps IsConsistent m
    → IsConsistent s.dispatcher
    → Holds (admit peer m s)
unfolding admit on_world
admit-Holds peer m s k c = elim (Option-cases (m s.dispatcher)) [
  | inl e ↦ subst (λ o. Holds (Option.map leave (then_server (put s o)))) (sym e) tt
  | inr ((a, w), e) ↦
      subst (λ o. Holds (Option.map leave (then_server (put s o)))) (sym e)
        (k.at s.dispatcher w a e c)
]
  where
    leave : Server → Server
    leave t = record t { peers = drop_peer peer t.peers }

choose : (b : Bool) (x y : Option Server) → Holds x → Holds y → Holds (if b then x else y)
choose true x y h k = h
choose false x y h k = k

serve_login-Holds :
    (peer : Socket) (s : Server) → IsConsistent s.dispatcher → Holds (serve_login peer s)
unfolding serve_login
serve_login-Holds peer s c =
    after (credentials peer) s
      (λ r t.
        if login r.0 r.1 t
        then admit peer (confirm peer r.0) t
        else then_server (on_world (write_command peer login_denied) t))
      (credentials-Keeps peer) c
      (λ r t d.
        choose (login r.0 r.1 t) _ _
          (admit-Holds peer (confirm peer r.0) t (confirm-Keeps peer r.0) d)
          (then_server-Holds (write_command peer login_denied) t
            (write_command-Keeps peer login_denied) d))

serve_signup-Holds :
    (peer : Socket) (s : Server) → IsConsistent s.dispatcher → Holds (serve_signup peer s)
unfolding serve_signup
serve_signup-Holds peer s c =
    after (credentials peer) s
      (λ r t.
        if is_taken r.0 t.file
        then then_server (on_world (write_command peer username_taken) t)
        else admit peer (confirm peer r.0 >> add_user_to_vector r.0) (registered r.0 r.1 t))
      (credentials-Keeps peer) c
      (λ r t d.
        choose (is_taken r.0 t.file) _ _
          (then_server-Holds (write_command peer username_taken) t
            (write_command-Keeps peer username_taken) d)
          (admit-Holds peer (confirm peer r.0 >> add_user_to_vector r.0) (registered r.0 r.1 t)
            (signed_up r.0) d))
  where
    signed_up : (name : Str) → Keeps IsConsistent (confirm peer name >> add_user_to_vector name)
    signed_up name = search (stable_rules, confirm-Keeps, add_user_to_vector-Keeps) depth 16

serve_command-Holds :
    (command : ℕ) (peer : Socket) (s : Server)
    → IsConsistent s.dispatcher
    → Holds (serve_command command peer s)
unfolding serve_command
serve_command-Holds command peer s c = choose (command == 0) _ _ c (
    choose (command == login_command) _ _ (serve_login-Holds peer s c) (
      choose (command == signup_command) _ _ (serve_signup-Holds peer s c) (
        then_server-Holds (write_command peer bad_command) s (write_command-Keeps peer bad_command)
          c)))

serve-Holds : (peer : Socket) (s : Server) → IsConsistent s.dispatcher → Holds (serve peer s)
unfolding serve
serve-Holds peer s c = choose (peer == 0) _ _ c (
    after (next_command peer) s (λ command t. serve_command command peer t)
      (next_command-Keeps peer) c (λ command t d. serve_command-Holds command peer t d))

add_peer-Holds : (peer : Socket) (s : Server) → IsConsistent s.dispatcher → Holds (add_peer peer s)
unfolding add_peer
add_peer-Holds peer s c =
    then_server-Holds (write_command peer login_or_signup)
      (record s { peers = s.peers ++ (peer ∷ []); status = true })
      (write_command-Keeps peer login_or_signup) c

Step-IsConsistent :
    (s t : Server) → Step s t → IsConsistent s.dispatcher → IsConsistent t.dispatcher
Step-IsConsistent s t (served peer e) c = subst Holds e (serve-Holds peer s c)
Step-IsConsistent s t (dispatched sock w e) c = (round-Keeps sock).at s.dispatcher w tt e c
Step-IsConsistent s t (accepted peer e) c = subst Holds e (add_peer-Holds peer s c)

-- Rounds of the login thread and of the dispatcher thread and new peers that follow each other in
-- any order, none of which is undefined behaviour, lead from consistent maps to consistent maps,
-- whichever sockets are ready and whatever their clients have sent.
pub Steps-IsConsistent :
    (s t : Server) → Steps s t → IsConsistent s.dispatcher → IsConsistent t.dispatcher
Steps-IsConsistent s t stop c = c
Steps-IsConsistent s t (step u e es) c = Steps-IsConsistent u t es (Step-IsConsistent s u e c)
