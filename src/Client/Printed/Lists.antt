-- ===== src/Client/Printed/Lists.antt =====
-- The lists of names, from what the dispatcher sends for one (ServerSide/src/Dispatcher.cpp, the
-- list requests) to what the client prints (ClientSide/src/Client.cpp).
use networking_programming_p.Base.{
  ℕ, suc, ◌^◌, ◌<◌, ◌≡◌, refl, ◌∙◌, ap, Str, List, [], ◌∷◌, ◌++◌, some, false, arith, length,
  lt→ltb, All, ◌==◌, codes, Bool-cases, inl, inr, if◌then◌else◌,
}
use networking_programming_p.Wire.{Arrival, chunk, leftover, command_bytes, msg_bytes, read_command}
use networking_programming_p.Wire.RoundTrip.{read_command-command_bytes}
use networking_programming_p.Address.{decimal}
use networking_programming_p.Protocol.{
  all_users_list, users_list, chatrooms_list, chatroom_users_list,
}
use networking_programming_p.Dispatcher.State.{Socket}
use networking_programming_p.Dispatcher.Sends.{list_packets}
use networking_programming_p.Client.{Client}
use networking_programming_p.Client.Handlers.{list_size}
use networking_programming_p.Client.Delivered.{
  delivered, IsReadable, read_msg-leftover, read_command-leftover, moved,
}
use networking_programming_p.Client.Lists.{
  IsNamesList, IsNamesList-nonzero, IsNamesList-small, names_bytes, delivered-list_packets,
}
use networking_programming_p.Client.Printed.{
  Lines, with_line, after_msg, name_lines, switch_lines, round_lines, got_all_users, got_users_list,
  got_chatrooms_list, got_chatroom_users_names,
}

-- The names behind a label and their number, counted from 1.
abbrev pub numbered : Str → ℕ → List Str → List Str
numbered label i [] = []
numbered label i (n ∷ ns) =
    (label ++ (decimal (suc i) ++ (codes ": " ++ n))) ∷ numbered label (suc i) ns

pub after_msg_lem :
    (k : Str → List Arrival → Lines) (s : Str) (rest : List ℕ) (q : List Arrival)
    → IsReadable s
    → after_msg k (leftover (msg_bytes s ++ rest) q) ≡ k s (leftover rest q)
unfolding after_msg
after_msg_lem k s rest q h = rw (after_msg, read_msg-leftover s rest q h) refl

name_lines_lem :
    (label : Str) (i : ℕ) (names : List Str) (rest : List ℕ) (q : List Arrival)
    → All IsReadable names
    → name_lines label i (length names) (leftover (names_bytes names rest) q)
      ≡ some (numbered label i names)
unfolding name_lines names_bytes
name_lines_lem label i [] rest q a = refl
name_lines_lem label i (n ∷ ns) rest q a =
    after_msg_lem _ n (names_bytes ns rest) q a.0
    ∙ ap (with_line _) (name_lines_lem label (suc i) ns rest q a.1)

-- A round prints what the switch prints for the command.
pub round_lines_heard :
    (command : ℕ) (after : List ℕ) (q : List Arrival) (c : Client)
    → (command == 0) ≡ false
    → command < 2 ^ 32
    → c.inbox ≡ chunk (command_bytes command ++ after) ∷ q
    → round_lines c ≡ switch_lines command (moved (leftover after q) c)
unfolding round_lines
round_lines_heard command after q c z b e =
    let heard : read_command c.inbox ≡ (command, leftover after q) =
      ap read_command e ∙ read_command-command_bytes command after q b in
    rw (heard, z)

-- The lines of a list, by the command in front of it.
abbrev pub list_lines : ℕ → List Str → List Str
list_lines command names =
    if command == all_users_list
    then codes "*** ALL USERS ***" ∷ numbered (codes "User #") 0 names
    else if command == users_list
    then numbered (codes "User #") 0 names
    else if command == chatroom_users_list
    then numbered (codes "Chatroom user #") 0 names
    else if length names == 0
    then codes "There are no open rooms at the moment" ∷ []
    else numbered (codes "Chatroom #") 0 names

module _ (names : List Str) (rest : List ℕ) (q : List Arrival) (a : All IsReadable names)
    (h : length names < 2 ^ 31) where
  abbrev list : List Arrival
  list = leftover (command_bytes (length names) ++ names_bytes names rest) q

  counted : read_command list ≡ (length names, leftover (names_bytes names rest) q)
  counted = read_command-leftover (length names) (names_bytes names rest) q (omega arith)

  named :
      (label : Str)
      → name_lines label 0 (list_size (length names)) (leftover (names_bytes names rest) q)
        ≡ some (numbered label 0 names)
  unfolding list_size
  named label = rw (lt→ltb _ _ h) (name_lines_lem label 0 names rest q a)

  got_users_list_lem : got_users_list list ≡ some (numbered (codes "User #") 0 names)
  unfolding got_users_list
  got_users_list_lem = rw counted (named (codes "User #"))

  got_all_users_lem :
      got_all_users list ≡ some (codes "*** ALL USERS ***" ∷ numbered (codes "User #") 0 names)
  unfolding got_all_users
  got_all_users_lem = rw counted (ap (with_line _) (named (codes "User #")))

  got_chatroom_users_names_lem :
      got_chatroom_users_names list ≡ some (numbered (codes "Chatroom user #") 0 names)
  unfolding got_chatroom_users_names
  got_chatroom_users_names_lem = rw counted (named (codes "Chatroom user #"))

  got_chatrooms_list_lem : got_chatrooms_list list ≡ some (list_lines chatrooms_list names)
  unfolding got_chatrooms_list
  got_chatrooms_list_lem = elim (Bool-cases (length names == 0)) [
    | inl e ↦ rw counted (rw e refl)
    | inr e ↦ rw counted (rw e (named (codes "Chatroom #")))
  ]

-- When a list reply with one of the commands that the client takes as a list of names arrives in
-- one portion, the client prints every name in its order behind its number, counted from 1, each
-- on a line of its own: behind a title for the users of the file, and with one line that says so
-- for a list of no rooms, if every name is readable and their number is below 2^31.
pub round_lines-list_packets :
    (sock : Socket) (command : ℕ) (names : List Str) (rest : List ℕ) (q : List Arrival) (c : Client)
    → IsNamesList command
    → All IsReadable names
    → length names < 2 ^ 31
    → c.inbox ≡ chunk (delivered sock (list_packets sock command names) ++ rest) ∷ q
    → round_lines c ≡ some (list_lines command names)
unfolding switch_lines
round_lines-list_packets sock command names rest q c l a h e =
    let after = command_bytes (length names) ++ names_bytes names rest in
    round_lines_heard command after q c (IsNamesList-nonzero command l)
      (IsNamesList-small command l)
      (e ∙ ap (λ bs. chunk bs ∷ q) (delivered-list_packets sock command names rest))
    ∙ elim l [
      | inl k ↦ rw k (got_all_users_lem names rest q a h)
      | inr (inl k) ↦ rw k (got_users_list_lem names rest q a h)
      | inr (inr (inl k)) ↦ rw k (got_chatrooms_list_lem names rest q a h)
      | inr (inr (inr k)) ↦ rw k (got_chatroom_users_names_lem names rest q a h)
    ]
