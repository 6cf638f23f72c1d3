-- ===== src/Dispatcher/Starved.antt =====
-- A socket whose peer is gone, at the head of users_vector (ServerSide/src/Dispatcher.cpp, run).
use networking_programming_p.Base.{
  suc, List, [], ◌∷◌, some, Bool, true, false, ◌≡◌, refl, ◌∙◌, ap, All, ◌==◌, ==_iff, arith,
}
use networking_programming_p.Wire.{read_command, recv, portion, ntohl}
use networking_programming_p.Listener.{Selected, selected, listen_to_socket, listen_to_socket-first}
use networking_programming_p.Dispatcher.State.{Socket, new_user, World, update}
use networking_programming_p.Dispatcher.Monad.{
  ◌>>=◌, ◌>>◌, allocate_user, next_command, branch◌then◌else◌,
}
use networking_programming_p.Dispatcher.Steps.{>>=_step}
use networking_programming_p.Dispatcher.Loop.{handle, round, poll, run}

-- The socket is in the set that select gives.
abbrev pub IsReady : Socket → Selected → Type 0
IsReady s outcome = (is_set : Socket → Bool) × (outcome ≡ selected is_set) × (is_set s ≡ true)

-- Nothing of what clients see has changed.
pub record IsIdle (w v : World) : Type 0 where
  pub sent : v.sent ≡ w.sent
  pub users_map : v.users_map ≡ w.users_map
  pub users_vector : v.users_vector ≡ w.users_vector
  pub status : v.status ≡ w.status
  pub inbox : (s : Socket) → v.inbox s ≡ w.inbox s

-- A round of a socket at the end of its stream.
idled : Socket → World → World
idled s w = record w {
  users =
      update (update w.users w.next_user new_user) w.next_user
        (record (update w.users w.next_user new_user w.next_user) { socket = s });
  next_user = suc w.next_user;
  inbox = update w.inbox s [];
}

next_command_closed :
    (s : Socket) (w : World)
    → w.inbox s ≡ []
    → next_command s w ≡ some (0, record w { inbox = update w.inbox s [] })
unfolding next_command read_command recv portion ntohl
next_command_closed s w e = rw e

round_closed :
    (s : Socket) (w : World) → (s == 0) ≡ false → w.inbox s ≡ [] → round s w ≡ some (tt, idled s w)
unfolding round handle idled allocate_user ◌>>=◌
round_closed s w n e =
    let u = record w { users = update w.users w.next_user new_user; next_user = suc w.next_user } in
    rw (n, branch◌then◌else◌) (>>=_step (next_command s) _ (next_command_closed s u e))

poll_closed :
    (s : Socket) (after : List Socket) (outcome : Selected) (w : World)
    → (s == 0) ≡ false
    → w.users_vector ≡ s ∷ after
    → IsReady s outcome
    → w.inbox s ≡ []
    → poll outcome w ≡ some (tt, idled s w)
unfolding poll ◌>>=◌
poll_closed s after outcome w n l (is_set, o, r) e =
    ap (λ t. round t w)
      (ap (λ p. listen_to_socket p w.users_vector) o
        ∙ ap (listen_to_socket (selected is_set)) l
        ∙ listen_to_socket-first is_set [] after s tt r)
    ∙ round_closed s w n e

idled-inbox :
    (s : Socket) (w : World) → w.inbox s ≡ [] → (t : Socket) → (idled s w).inbox t ≡ w.inbox t
unfolding idled update
idled-inbox s w e t = ground (arith, ==_iff s t, e)

idled-IsIdle : (s : Socket) (w : World) → w.inbox s ≡ [] → IsIdle w (idled s w)
unfolding idled
idled-IsIdle s w e = record {
  sent = refl;
  users_map = refl;
  users_vector = refl;
  status = refl;
  inbox = idled-inbox s w e;
}

IsIdle-trans : (u v w : World) → IsIdle u v → IsIdle v w → IsIdle u w
IsIdle-trans u v w a b = record {
  sent = b.sent ∙ a.sent;
  users_map = b.users_map ∙ a.users_map;
  users_vector = b.users_vector ∙ a.users_vector;
  status = b.status ∙ a.status;
  inbox = λ s. b.inbox s ∙ a.inbox s;
}

-- When the first socket of users_vector has come to the end of its stream and select reports it
-- as ready each time, the dispatcher goes through any number of rounds without a fault, reads
-- nothing of what the other clients have sent and answers none of them.
pub run-starved :
    (s : Socket) (after : List Socket) (outcomes : List Selected) (w : World)
    → (s == 0) ≡ false
    → w.users_vector ≡ s ∷ after
    → w.status ≡ true
    → w.inbox s ≡ []
    → All (IsReady s) outcomes
    → (v : World) × (run outcomes w ≡ some (tt, v)) × IsIdle w v
unfolding run ◌>>=◌
run-starved s after [] w n l t e a = (
  w,
  refl,
  record { sent = refl; users_map = refl; users_vector = refl; status = refl; inbox = λ x. refl },
)
run-starved s after (o ∷ os) w n l t e a =
    let idle = idled-IsIdle s w e in
    let (v, path, later) =
      run-starved s after os (idled s w) n (idle.users_vector ∙ l) (idle.status ∙ t)
        (idle.inbox s ∙ e) a.1 in
    (
      v,
      started ∙ >>=_step (poll o) (λ x. run os) (poll_closed s after o w n l a.0 e) ∙ path,
      IsIdle-trans w (idled s w) v idle later,
    )
  where
    started : run (o ∷ os) w ≡ (poll o >> run os) w
    started = rw (t, branch◌then◌else◌) refl
