-- ===== src/Conversation/Enrolment/Twice.antt =====
-- Two clients sign up under one name, one after the other (ClientSide/src/Client.cpp, signup and run,
-- and ServerSide/src/LoginAndSignUp.cpp, run and signup).
use networking_programming_p.Base.{
  ℕ, ◌≡◌, ◌≢◌, refl, ap, ◌∙◌, Str, List, [], ◌∷◌, ◌++◌, some, true, false, arith, ◌==◌,
  if◌then◌else◌, Bool,
}
use networking_programming_p.Wire.{Arrival, chunk}
use networking_programming_p.Protocol.{username_taken}
use networking_programming_p.Dispatcher.State.{Socket}
use networking_programming_p.Dispatcher.Monad.{command_packets}
use networking_programming_p.Dispatcher.Steps.{added, update_ne}
use networking_programming_p.Login.{Server, serve}
use networking_programming_p.Login.File.{has_account}
use networking_programming_p.Login.Accounts.{append_account_lem}
use networking_programming_p.Login.Entry.{admitted}
use networking_programming_p.Login.Signup.{enrolled}
use networking_programming_p.Client.{Client}
use networking_programming_p.Client.Requests.{send_signup}
use networking_programming_p.Client.Run.{round, switch}
use networking_programming_p.Client.Delivered.{
  delivered, IsReadable, round_heard, delivered-command_hit,
}
use networking_programming_p.Conversation.{news, hearing}
use networking_programming_p.Conversation.Enrolment.{
  CanSignUp, let_in, refused, serve-send_signup_if,
}

-- The client of a peer that is refused stays as it is.
round-hearing_taken :
    (sock : Socket) (a : Client)
    → round (hearing sock (command_packets sock username_taken) a) ≡ some (record a { inbox = [] })
unfolding switch delivered
round-hearing_taken sock a =
    round_heard username_taken [] [] (hearing sock (command_packets sock username_taken) a) refl
      (omega arith) (ap (λ bs. chunk bs ∷ []) (delivered-command_hit sock username_taken []))

-- The round that lets the first one in leaves what the other one sent.
let_in-inbox :
    (s : Server) (sock peer : Socket) (name pass : Str) (rest : List ℕ) (q : List Arrival)
    → sock ≢ peer
    → (let_in s sock name pass rest q).dispatcher.inbox peer ≡ s.dispatcher.inbox peer
unfolding let_in enrolled admitted added
let_in-inbox s sock peer name pass rest q apart =
    update_ne _ sock peer _ apart ∙ update_ne s.dispatcher.inbox sock peer _ apart

-- When what two clients write to sign up under one name has arrived at two sockets, and the first
-- can be granted, then after the round that answers it a round for the other one answers without a
-- fault and refuses it: the file is as the first round left it, with the first password, and so are
-- users_map, the peers and the names that the dispatcher lists; only USERNAME_TAKEN is sent, and
-- the second client, when it hears of it, is as it was.
pub serve-send_signup_twice :
    (s : Server) (sock peer : Socket) (name pass secret : Str) (c d a : Client)
    (rest after : List ℕ) (q r : List Arrival)
    → CanSignUp s sock name pass
    → sock ≢ peer
    → (peer == 0) ≡ false
    → IsReadable secret
    → s.dispatcher.inbox sock ≡ chunk (news c (send_signup name pass c) ++ rest) ∷ q
    → s.dispatcher.inbox peer ≡ chunk (news d (send_signup name secret d) ++ after) ∷ r
    → (t u : Server) × (serve sock s ≡ some t)
      × (serve peer t ≡ some u)
      × (has_account name pass u.file ≡ true)
      × (u.file ≡ t.file)
      × (u.dispatcher.users_map ≡ t.dispatcher.users_map)
      × (u.peers ≡ t.peers)
      × (u.dispatcher.all_users_infile_vector ≡ t.dispatcher.all_users_infile_vector)
      × (u.dispatcher.sent ≡ t.dispatcher.sent ++ command_packets peer username_taken)
      × (round (hearing peer (command_packets peer username_taken) a)
          ≡ some (record a { inbox = [] }))
unfolding refused let_in enrolled admitted added
serve-send_signup_twice s sock peer name pass secret c d a rest after q r can apart z p e f =
    let file =
      append_account_lem name pass s.file can.well_formed can.writable can.name_line can.name_word
        can.pass_line in
    let t = let_in s sock name pass rest q in
    (
      t,
      refused t peer name secret after r,
      serve-send_signup_if s sock name pass rest q can.connected can.name_readable can.pass_readable
            c e
          ∙ ap (λ (b : Bool). some (if b then refused s sock name pass rest q else t)) can.free,
      serve-send_signup_if t peer name secret after r z can.name_readable p d
            (let_in-inbox s sock peer name pass rest q apart ∙ f)
          ∙ ap
              (λ (b : Bool). some (
                if b
                then refused t peer name secret after r
                else let_in t peer name secret after r))
              file.1,
      file.0,
      refl,
      refl,
      refl,
      refl,
      refl,
      round-hearing_taken peer a,
    )
