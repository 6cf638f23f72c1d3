-- ===== src/Conversation/Enrolment.antt =====
-- A new account from the console of a client to its answer: Client::signup
-- (ClientSide/src/Client.cpp), a round of LoginAndSignUp::run (ServerSide/src/LoginAndSignUp.cpp),
-- and a round of Client::run.
pub mod Twice
pub mod Tests
use networking_programming_p.Base.{
  ℕ, ◌≡◌, refl, sym, ap, ◌∙◌, Str, List, [], ◌∷◌, ◌++◌, append_assoc, append-nil, some, true, false,
  arith, drop-append, ◌==◌, if◌then◌else◌, Bool,
}
use networking_programming_p.Wire.{
  Arrival, chunk, leftover, read_command, read_msg, command_bytes, msg_bytes,
}
use networking_programming_p.Wire.RoundTrip.{read_command-command_bytes}
use networking_programming_p.OrderedMap.{find}
use networking_programming_p.Protocol.{signup as signup_command, username_taken}
use networking_programming_p.Dispatcher.State.{Socket, Packet}
use networking_programming_p.Dispatcher.Monad.{command_packets}
use networking_programming_p.Dispatcher.Steps.{added, consumed, send, update_self}
use networking_programming_p.Login.{Server, registered, serve, serve_command}
use networking_programming_p.Login.File.{get_all_users, has_account, is_taken, append_account}
use networking_programming_p.Login.Accounts.{Lacks, IsWellFormed, append_account_lem}
use networking_programming_p.Login.Entry.{Submits, heard, find-admitted, confirm_packets, admitted}
use networking_programming_p.Login.Signup.{enrolled, serve_signup_lem}
use networking_programming_p.Client.{Client}
use networking_programming_p.Client.Requests.{send_signup}
use networking_programming_p.Client.Run.{round}
use networking_programming_p.Client.Delivered.{IsReadable, IsPrintable, read_msg-leftover}
use networking_programming_p.Conversation.{news, hearing}
use networking_programming_p.Conversation.Entry.{
  serve-serve_command, logged_in_as, round-confirm_packets,
}

news-send_signup :
    (name pass : Str) (c : Client) (rest : List ℕ)
    → news c (send_signup name pass c) ++ rest
      ≡ command_bytes signup_command ++ (msg_bytes name ++ (msg_bytes pass ++ rest))
unfolding send_signup msg_bytes
news-send_signup name pass c rest = simp (append_assoc, drop-append, append-nil)

-- The names that the dispatcher lists are those of the file.
abbrev pub IsListed : Server → Type 0
IsListed s = s.dispatcher.all_users_infile_vector ≡ get_all_users s.file

-- A signup that the server can grant: the name is free and has no space, neither text has a
-- newline, the file can be written and has what signups left in it, and the texts and the peer's
-- address can be read.
pub record CanSignUp (s : Server) (sock : Socket) (name pass : Str) : Type 0 where
  pub connected : (sock == 0) ≡ false
  pub free : is_taken name s.file ≡ false
  pub well_formed : IsWellFormed s.file
  pub writable : s.file.writable ≡ true
  pub listed : IsListed s
  pub name_line : Lacks b'\n' name
  pub name_word : Lacks b' ' name
  pub pass_line : Lacks b'\n' pass
  pub name_readable : IsReadable name
  pub pass_readable : IsReadable pass
  pub printable : IsPrintable (s.dispatcher.address sock)

module _ (s : Server) (sock : Socket) (name pass : Str) (rest : List ℕ) (q : List Arrival) where
  unfoldable pub asked : List ℕ
  asked = msg_bytes name ++ (msg_bytes pass ++ rest)

  -- The server once the command was read.
  abbrev t : Server
  t = heard sock (leftover asked q) s

  unfoldable pub let_in : Server
  let_in = enrolled sock name pass (heard sock (leftover rest q) t)

  unfoldable pub refused : Server
  refused = record t {
    dispatcher =
        send (command_packets sock username_taken) (consumed sock (leftover rest q) t.dispatcher);
  }

  module _ (z : (sock == 0) ≡ false) (n : IsReadable name) (p : IsReadable pass) where
    submits : Submits t sock name pass (leftover rest q)
    unfolding asked
    submits = record {
      middle = leftover (msg_bytes pass ++ rest) q;
      named =
          ap read_msg (update_self s.dispatcher.inbox sock (leftover asked q))
          ∙ read_msg-leftover name (msg_bytes pass ++ rest) q n;
      secret = read_msg-leftover pass rest q p;
    }

    -- A round with what a client writes to sign up, on both branches.
    pub serve-send_signup_if :
        (c : Client)
        → s.dispatcher.inbox sock ≡ chunk (news c (send_signup name pass c) ++ rest) ∷ q
        → serve sock s ≡ some (if is_taken name s.file then refused else let_in)
    unfolding serve_command let_in refused asked
    serve-send_signup_if c e =
        serve-serve_command sock signup_command (leftover asked q) s z (
          ap read_command (e ∙ ap (λ bs. chunk bs ∷ q) (news-send_signup name pass c rest))
          ∙ read_command-command_bytes signup_command asked q (omega arith))
        ∙ serve_signup_lem t sock name pass (leftover rest q) submits

-- When what a client writes to sign up arrives at the server, and the name is free, one round of
-- the login thread answers it without a fault: login finds the account in the file, in which every
-- line is still an account, the names that the dispatcher lists are again those of the file, the
-- name stands in users_map for a new user, and what is sent makes the client, in one round, count
-- as logged in under that name at the port at which the server sees it. This holds if the file can
-- be written, the name has no space, and neither text has a newline or is too long to be read.
pub serve-send_signup :
    (s : Server) (sock : Socket) (name pass : Str) (c a : Client) (rest : List ℕ) (q : List Arrival)
    → CanSignUp s sock name pass
    → s.dispatcher.inbox sock ≡ chunk (news c (send_signup name pass c) ++ rest) ∷ q
    → (t : Server) × (packets : List Packet) × (serve sock s ≡ some t)
      × (t.dispatcher.sent ≡ s.dispatcher.sent ++ packets)
      × (has_account name pass t.file ≡ true)
      × IsWellFormed t.file
      × IsListed t
      × (find name t.dispatcher.users_map ≡ some s.dispatcher.next_user)
      × (round (hearing sock packets a)
          ≡ some (logged_in_as name (s.dispatcher.address sock) (record a { inbox = [] })))
unfolding asked let_in enrolled admitted added
serve-send_signup s sock name pass c a rest q can e =
    let file =
      append_account_lem name pass s.file can.well_formed can.writable can.name_line can.name_word
        can.pass_line in
    (
      let_in s sock name pass rest q,
      confirm_packets sock name s.dispatcher,
      serve-send_signup_if s sock name pass rest q can.connected can.name_readable can.pass_readable
            c e
          ∙ ap
              (λ (b : Bool).
                some
                  (if b then refused s sock name pass rest q else let_in s sock name pass rest q))
              can.free,
      refl,
      file.0,
      file.3,
      ap (λ names. names ++ (name ∷ [])) can.listed ∙ sym file.2,
      find-admitted sock name (
          registered name pass (
            heard sock (leftover rest q)
              (heard sock (leftover (asked s sock name pass rest q) q) s))),
      round-confirm_packets sock name s.dispatcher a can.name_readable can.printable,
    )
