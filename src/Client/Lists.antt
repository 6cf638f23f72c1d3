-- ===== src/Client/Lists.antt =====
-- The lists of names: what the dispatcher sends for one (ServerSide/src/Dispatcher.cpp, the list
-- requests) and what the client reads of it (ClientSide/src/Client.cpp, gotUsersList and the like).
use networking_programming_p.Base.{
  ℕ, ◌^◌, ◌<◌, ◌≡◌, refl, ◌∙◌, ap, Str, List, [], ◌∷◌, ◌++◌, append_assoc, some, false, arith,
  length, lt→ltb, All, ◌==◌, ◌⊎◌, inl, inr,
}
use networking_programming_p.Wire.{Arrival, chunk, leftover, command_bytes, msg_bytes}
use networking_programming_p.Protocol.{
  all_users_list, users_list, chatrooms_list, chatroom_users_list,
}
use networking_programming_p.Dispatcher.State.{Socket}
use networking_programming_p.Dispatcher.Sends.{list_packets, names_packets}
use networking_programming_p.Client.{Client, with_msg_lem}
use networking_programming_p.Client.Handlers.{list_size, with_count, skip_names, got_names}
use networking_programming_p.Client.Run.{switch, round}
use networking_programming_p.Client.Delivered.{
  delivered, IsReadable, read_msg-leftover, read_command-leftover, moved, round_heard,
  delivered-command_hit, delivered-msg_hit,
}

-- The bytes of the names.
unfoldable pub names_bytes : List Str → List ℕ → List ℕ
names_bytes [] rest = rest
names_bytes (n ∷ ns) rest = msg_bytes n ++ names_bytes ns rest

delivered-names_packets :
    (sock : Socket) (names : List Str) (rest : List ℕ)
    → delivered sock (names_packets sock names) ++ rest ≡ names_bytes names rest
unfolding names_bytes delivered
delivered-names_packets sock [] rest = refl
delivered-names_packets sock (n ∷ ns) rest =
    ap (λ bs. bs ++ rest) (delivered-msg_hit sock n (names_packets sock ns))
    ∙ append_assoc (msg_bytes n) (delivered sock (names_packets sock ns)) rest
    ∙ ap (λ bs. msg_bytes n ++ bs) (delivered-names_packets sock ns rest)

pub delivered-list_packets :
    (sock : Socket) (command : ℕ) (names : List Str) (rest : List ℕ)
    → delivered sock (list_packets sock command names) ++ rest
      ≡ command_bytes command ++ (command_bytes (length names) ++ names_bytes names rest)
delivered-list_packets sock command names rest = rw (
  delivered-command_hit, delivered-command_hit, append_assoc, append_assoc, delivered-names_packets,
)

skip_names_lem :
    (names : List Str) (rest : List ℕ) (q : List Arrival) (c : Client)
    → All IsReadable names
    → skip_names (length names) (moved (leftover (names_bytes names rest) q) c)
      ≡ some (moved (leftover rest q) c)
unfolding skip_names names_bytes
skip_names_lem [] rest q c a = refl
skip_names_lem (n ∷ ns) rest q c a =
    with_msg_lem (λ name c'. skip_names (length ns) c')
      (moved (leftover (msg_bytes n ++ names_bytes ns rest) q) c) n
      (leftover (names_bytes ns rest) q) (read_msg-leftover n (names_bytes ns rest) q a.0)
    ∙ skip_names_lem ns rest q c a.1

got_names_lem :
    (names : List Str) (rest : List ℕ) (q : List Arrival) (c : Client)
    → All IsReadable names
    → length names < 2 ^ 31
    → got_names (moved (leftover (command_bytes (length names) ++ names_bytes names rest) q) c)
      ≡ some (moved (leftover rest q) c)
unfolding got_names with_count list_size
got_names_lem names rest q c a h =
    rw (read_command-leftover (length names) (names_bytes names rest) q (omega arith), lt→ltb _ _ h)
      (skip_names_lem names rest q c a)

-- The commands that the client takes for a list of names.
abbrev pub IsNamesList : ℕ → Type 0
IsNamesList command =
    (command ≡ all_users_list)
    ⊎ (command ≡ users_list)
    ⊎ (command ≡ chatrooms_list)
    ⊎ (command ≡ chatroom_users_list)

switch-IsNamesList :
    (command : ℕ) (c : Client) → IsNamesList command → switch command c ≡ got_names c
unfolding switch
switch-IsNamesList command c l = elim l [
  | inl e ↦ rw e
  | inr (inl e) ↦ rw e
  | inr (inr (inl e)) ↦ rw e
  | inr (inr (inr e)) ↦ rw e
]

pub IsNamesList-nonzero : (command : ℕ) → IsNamesList command → (command == 0) ≡ false
IsNamesList-nonzero command l = ground arith

pub IsNamesList-small : (command : ℕ) → IsNamesList command → command < 2 ^ 32
IsNamesList-small command l = ground arith

-- When a list reply with one of the commands that the client takes as a list of names arrives in
-- one portion, the client has read exactly that reply after one round, and is otherwise as it was:
-- if every name is readable and their number is below 2^31.
pub round-list_packets :
    (sock : Socket) (command : ℕ) (names : List Str) (rest : List ℕ) (q : List Arrival) (c : Client)
    → IsNamesList command
    → All IsReadable names
    → length names < 2 ^ 31
    → c.inbox ≡ chunk (delivered sock (list_packets sock command names) ++ rest) ∷ q
    → round c ≡ some (record c { inbox = leftover rest q })
round-list_packets sock command names rest q c l a h e =
    let after = command_bytes (length names) ++ names_bytes names rest in
    round_heard command after q c (IsNamesList-nonzero command l) (IsNamesList-small command l)
      (e ∙ ap (λ bs. chunk bs ∷ q) (delivered-list_packets sock command names rest))
    ∙ switch-IsNamesList command (moved (leftover after q) c) l
    ∙ got_names_lem names rest q c a h
