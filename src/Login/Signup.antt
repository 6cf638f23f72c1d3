-- ===== src/Login/Signup.antt =====
-- The branch of LoginAndSignUp::run for SIGNUP (ServerSide/src/LoginAndSignUp.cpp).
use networking_programming_p.Base.{
  ◌≡◌, refl, Str, List, [], ◌∷◌, ◌++◌, some, if◌then◌else◌, Bool-cases, inl, inr,
}
use networking_programming_p.Wire.{Arrival}
use networking_programming_p.Protocol.{username_taken}
use networking_programming_p.Dispatcher.State.{Socket}
use networking_programming_p.Dispatcher.Monad.{modify, ◌>>◌, command_packets}
use networking_programming_p.Dispatcher.Caller.{add_user_to_vector}
use networking_programming_p.Dispatcher.Steps.{>>=_step, send, consumed}
use networking_programming_p.Login.File.{is_taken}
use networking_programming_p.Login.{Server, confirm, on_world, admit, registered, serve_signup}
use networking_programming_p.Login.Entry.{
  Submits, heard, admitted, confirm_lem, credentials_lem, on_world-write_command,
}

-- The server once a new account's peer was let in.
unfoldable pub enrolled : Socket → Str → Str → Server → Server
enrolled peer username password s =
    let t = admitted peer username (registered username password s) in
    record t {
      dispatcher = record t.dispatcher {
        all_users_infile_vector = t.dispatcher.all_users_infile_vector ++ (username ∷ []);
      };
    }

admit-signup :
    (peer : Socket) (username password : Str) (s : Server)
    → admit peer
        (confirm peer username >> add_user_to_vector username)
        (registered username password s)
      ≡ some (enrolled peer username password s)
unfolding admit on_world admitted enrolled add_user_to_vector modify
admit-signup peer username password s =
    rw
      (
        >>=_step (confirm peer username) (λ _. add_user_to_vector username)
            (confirm_lem peer username s.dispatcher),
        on_world,
      )
      refl

-- SIGNUP, on both branches: a name that the search finds taken is answered with USERNAME_TAKEN and
-- nothing else changes; any other account is appended to the file if that can be written, its name
-- to the dispatcher's list, and its peer is confirmed, enters the dispatcher and leaves `peers`.
pub serve_signup_lem :
    (s : Server) (peer : Socket) (username password : Str) (rest : List Arrival)
    → Submits s peer username password rest
    → serve_signup peer s
      ≡ some (
          if is_taken username s.file
          then record s {
            dispatcher =
                send (command_packets peer username_taken) (consumed peer rest s.dispatcher);
          }
          else enrolled peer username password (heard peer rest s))
unfolding serve_signup
serve_signup_lem s peer username password rest r =
    rw (credentials_lem s peer username password rest r, serve_signup)
      (elim (Bool-cases (is_taken username s.file)) [
        | inl e ↦ rw e (on_world-write_command peer username_taken (heard peer rest s))
        | inr e ↦ rw e (admit-signup peer username password (heard peer rest s))
      ])
