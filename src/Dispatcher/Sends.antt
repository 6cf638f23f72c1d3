-- ===== src/Dispatcher/Sends.antt =====
-- Actions that only send: the list requests, and the loops that tell a room's users something.
use networking_programming_p.Base.{
  ℕ, ◌≡◌, refl, sym, ◌∙◌, ap, Str, List, [], ◌∷◌, ◌++◌, append_assoc, append-nil, none, some,
  Option-cases, Bool-cases, arith, inl, inr, length, str_eq, str_eq_iff, true,
}
use networking_programming_p.OrderedMap.{find}
use networking_programming_p.Dispatcher.State.{Pointer, Socket, Packet, World}
use networking_programming_p.Dispatcher.Monad.{
  M, ◌>>=◌, pure, load_user, user_at, write_command, write_msg, command_packets, msg_packets,
}
use networking_programming_p.Dispatcher.Steps.{
  >>=_step, >>=_fault, send, user_at_lem, user_at_fault,
}
use networking_programming_p.Dispatcher.Members.{listed}
use networking_programming_p.Dispatcher.Listings.{write_all, write_list}
use networking_programming_p.Dispatcher.Loop.{tell_closed, tell_exited}

-- If `m` does not fault, it has sent some packets and done nothing else.
pub record SendsOnly {A : Type 0} (m : M A) : Type 0 where
  pub at :
      (w v : World) (a : A) → m w ≡ some (a, v) → (packets : List Packet) × (v ≡ send packets w)

send-nil : (w : World) → w ≡ send [] w
send-nil w = λ i. record w { sent = sym (append-nil w.sent) i }

SendsOnly-exact :
    {A : Type 0} {m : M A} (a : World → A) (packets : World → List Packet)
    → ((w : World) → m w ≡ some (a w, send (packets w) w))
    → SendsOnly m
SendsOnly-exact a packets e = record { at = λ w v b h. (packets w, cc (e w)) }

SendsOnly-pure : {A : Type 0} (a : A) → SendsOnly (pure a)
unfolding pure
SendsOnly-pure a = record { at = λ w v b h. ([], cc (send-nil w)) }

SendsOnly-bind :
    {A B : Type 0} (m : M A) (f : A → M B)
    → SendsOnly m
    → ((a : A) → SendsOnly (f a))
    → SendsOnly (m >>= f)
SendsOnly-bind m f km kf = record {
  at = λ w v b h. elim (Option-cases (m w)) [
    | inl e ↦ absurd (cc (>>=_fault m f e))
    | inr ((a, u), e) ↦
        let first : (packets : List Packet) × (u ≡ send packets w) = km.at w u a e in
        let second : (packets : List Packet) × (v ≡ send packets u) =
          (kf a).at u v b (sym (>>=_step m f e) ∙ h) in
        (
          first.0 ++ second.0,
          second.1
              ∙ ap (send second.0) first.1
              ∙ ap (λ (s : List Packet). record w { sent = s })
                  (append_assoc w.sent first.0 second.0),
        )
  ];
}

SendsOnly-load_user : (p : Pointer) → SendsOnly (load_user p)
unfolding load_user
SendsOnly-load_user p = record { at = λ w v b h. ([], cc (send-nil w)) }

SendsOnly-user_at : (name : Str) → SendsOnly (user_at name)
unfolding user_at
SendsOnly-user_at name = record { at = λ w v b h. ([], ground (arith, send-nil w)) }

SendsOnly-write_command : (sock : Socket) (n : ℕ) → SendsOnly (write_command sock n)
unfolding write_command
SendsOnly-write_command sock n = SendsOnly-exact (λ w. tt) (λ w. command_packets sock n) (λ w. refl)

SendsOnly-write_msg : (sock : Socket) (msg : Str) → SendsOnly (write_msg sock msg)
unfolding write_msg
SendsOnly-write_msg sock msg = SendsOnly-exact (λ w. tt) (λ w. msg_packets sock msg) (λ w. refl)

ruleset sends_rules = (
  SendsOnly-pure, SendsOnly-bind, SendsOnly-load_user, SendsOnly-user_at, SendsOnly-write_command,
  SendsOnly-write_msg,
)

pub tell_closed-SendsOnly : (us : List Str) → SendsOnly (tell_closed us)
unfolding tell_closed
tell_closed-SendsOnly [] = SendsOnly-pure tt
tell_closed-SendsOnly (u ∷ us) =
    let rest : SendsOnly (tell_closed us) = tell_closed-SendsOnly us in search sends_rules depth 9

listed_later :
    (name u : Str) (us : List Str) (w : World) (p : Pointer)
    → listed name (u ∷ us) ≡ true
    → find name w.users_map ≡ none
    → find u w.users_map ≡ some p
    → listed name us ≡ true
unfolding listed
listed_later name u us w p h e f = elim (Bool-cases (str_eq u name)) [
  | inl same ↦ cc (ap (λ (n : Str). find n w.users_map) ((str_eq_iff u name).0 same))
  | inr other ↦ ground arith
]

-- Telling a list of names that holds one without a connected user is a fault.
pub tell_exited-fault :
    (left name : Str) (us : List Str) (w : World)
    → listed name us ≡ true
    → find name w.users_map ≡ none
    → tell_exited left us w ≡ none
unfolding tell_exited listed ◌>>=◌
tell_exited-fault left name [] w h e = cc
tell_exited-fault left name (u ∷ us) w h e = elim (Option-cases (find u w.users_map)) [
  | inl n ↦ >>=_fault (user_at u) _ (user_at_fault u w n)
  | inr (p, f) ↦
      >>=_step (user_at u) _ (user_at_lem u w p f)
      ∙ tell_exited-fault left name us _ (listed_later name u us w p h e f) e
]

-- The packets of a list reply.
abbrev pub names_packets : Socket → List Str → List Packet
names_packets sock [] = []
names_packets sock (name ∷ names) = msg_packets sock name ++ names_packets sock names

abbrev pub list_packets : Socket → ℕ → List Str → List Packet
list_packets sock command names =
    command_packets sock command
    ++ (command_packets sock (length names) ++ names_packets sock names)

write_all_lem :
    (sock : Socket) (names : List Str) (w : World)
    → write_all sock names w ≡ some (tt, send (names_packets sock names) w)
unfolding write_all ◌>>=◌
write_all_lem sock [] w = ap (λ (v : World). some (tt, v)) (send-nil w)
write_all_lem sock (n ∷ names) w =
    write_all_lem sock names (send (msg_packets sock n) w)
    ∙ ap (λ (s : List Packet). some (tt, record w { sent = s }))
        (append_assoc w.sent (msg_packets sock n) (names_packets sock names))

-- A list reply never faults, sends the command, the number of names and each name in its order to
-- the one socket, and changes nothing else.
pub write_list_lem :
    (sock : Socket) (command : ℕ) (names : List Str) (w : World)
    → write_list sock command names w ≡ some (tt, send (list_packets sock command names) w)
unfolding write_list ◌>>=◌
write_list_lem sock command names w = write_all_lem sock names _ ∙ simp append_assoc
