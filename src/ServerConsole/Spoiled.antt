-- ===== src/ServerConsole/Spoiled.antt =====
-- The server cannot be closed without a fault any more once one of its two threads has gone through
-- a round (ServerSide/src/Dispatcher.cpp and ServerSide/src/LoginAndSignUp.cpp, run and close).
use networking_programming_p.Base.{
  ◌≡◌, refl, sym, ap, ◌∙◌, ◌||◌, ◌⊎◌, inl, inr, Option, none, some, true, arith, Bool-cases,
}
use networking_programming_p.Listener.{Selected}
use networking_programming_p.Objects.{freed, delete_object, is_freed}
use networking_programming_p.Dispatcher.State.{Socket}
use networking_programming_p.Login.{Server, on_world}
use networking_programming_p.Login
use networking_programming_p.Dispatcher.Loop
use networking_programming_p.ServerConsole.{Cli, Objects, close, dispatch, attend}
use networking_programming_p.ServerConsole.Closed.{close_lem, is_spoiled}

-- A server at which one of the threads has gone through its last round.
abbrev pub HasServed : Cli → Cli → Type 0
HasServed s t =
    ((outcome : Selected) × (dispatch outcome s ≡ some t))
    ⊎ ((ready_peer : Socket) × (attend ready_peer s ≡ some t))

-- What comes out of an action that goes on with `f`.
some_of :
    {A : Type 0} (f : A → Cli) (o : Option A) (t : Cli)
    → (elim o [ none ↦ none | some a ↦ some (f a) ]) ≡ some t
    → (a : A) × (f a ≡ t)
some_of f none t e = cc
some_of f (some a) t e = (a, cc)

dispatch-freed :
    (outcome : Selected) (s t : Cli) → dispatch outcome s ≡ some t → is_spoiled t.objects ≡ true
unfolding dispatch delete_object
dispatch-freed outcome s t e =
    let r =
      some_of
        (λ (r : Unit {0} × Server). record s {
          server = r.1;
          objects = record s.objects { listener = freed };
        })
        (on_world (Loop.poll outcome) s.server) t e in
    ap (λ (c : Cli). is_spoiled c.objects) (sym r.1)

attend-freed :
    (ready_peer : Socket) (s t : Cli) → attend ready_peer s ≡ some t → is_spoiled t.objects ≡ true
unfolding attend delete_object
attend-freed ready_peer s t e =
    let r =
      some_of
        (λ (r : Server). record s { server = r; objects = record s.objects { sockets = freed } })
        (Login.serve ready_peer s.server) t e in
    ap (λ (c : Cli). is_spoiled c.objects) (sym r.1) ∙ spoiled s.objects
  where
    spoiled : (o : Objects) → is_spoiled (record o { sockets = freed }) ≡ true
    spoiled o = elim (Bool-cases (is_freed o.listener || is_freed o.dispatcher)) [
      | inl e ↦ ground arith
      | inr e ↦ ground arith
    ]

-- Once a thread of the server has gone through a round, its close is a fault: it deletes what the
-- round has deleted.
pub close-HasServed : (s t : Cli) → HasServed s t → close t ≡ none
close-HasServed s t h = close_lem t ∙ elim h [
  | inl (outcome, e) ↦ rw (dispatch-freed outcome s t e) refl
  | inr (ready_peer, e) ↦ rw (attend-freed ready_peer s t e) refl
]
