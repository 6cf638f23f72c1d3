-- ===== src/Conversation/Enrolment/Tests.antt =====
-- ann signs up where bob has an account (ClientSide/src/Client.cpp and
-- ServerSide/src/LoginAndSignUp.cpp).
use networking_programming_p.Base.{
  Str, ◌++◌, ◌==◌, if◌then◌else◌, ◌≡◌, refl, List, [], ◌∷◌, some, true, codes, arith, str_eq,
}
use networking_programming_p.Wire.{has_nul, Arrival, chunk}
use networking_programming_p.OrderedMap.{find}
use networking_programming_p.Dispatcher.State.{Packet, Socket}
use networking_programming_p.Dispatcher.Monad.{command_packets}
use networking_programming_p.Protocol.{username_taken}
use networking_programming_p.Login.{Server, serve}
use networking_programming_p.Login.File.{
  is_taken, scan_lines, scan_line, lines_of, lines, get_all_users, name_of, has_account,
}
use networking_programming_p.Login.Accounts.{IsWellFormed, has_space}
use networking_programming_p.Client.{new_client}
use networking_programming_p.Client.Requests.{send_signup}
use networking_programming_p.Client.Run.{round}
use networking_programming_p.Conversation.{news, hearing}
use networking_programming_p.Conversation.Entry.{logged_in_as}
use networking_programming_p.Conversation.Tests.{
  ann, bob, home, world, ann-IsReadable, home-IsPrintable,
}
use networking_programming_p.Conversation.Enrolment.{CanSignUp, IsListed, serve-send_signup}
use networking_programming_p.Conversation.Enrolment.Twice.{serve-send_signup_twice}

-- bob has an account, and this is what arrives.
abbrev asking : (Socket → List Arrival) → Server
asking inbox = record {
  dispatcher = record (world [] []) { all_users_infile_vector = bob ∷ []; inbox = inbox };
  peers = 1 ∷ 2 ∷ [];
  status = true;
  file = record { content = some (codes "bob b\n"); writable = true };
}

-- What a new client writes to sign up as ann.
abbrev signing_up : Str → List Arrival
signing_up pass = chunk (news new_client (send_signup ann pass new_client) ++ []) ∷ []

abbrev one_asking : Server
one_asking = asking (λ s. if s == 1 then signing_up (codes "pw") else [])

abbrev two_asking : Server
two_asking = asking (λ s. if s == 1 then signing_up (codes "pw") else signing_up (codes "x"))

asking-IsWellFormed : IsWellFormed one_asking.file
unfolding lines_of lines has_space
asking-IsWellFormed = record { terminated = refl; spaced = (refl, tt) }

ann-CanSignUp : (inbox : Socket → List Arrival) → CanSignUp (asking inbox) 1 ann (codes "pw")
unfolding is_taken scan_lines scan_line lines_of lines get_all_users name_of str_eq has_nul
ann-CanSignUp inbox = record {
  connected = refl;
  free = refl;
  well_formed = asking-IsWellFormed;
  writable = refl;
  listed = refl;
  name_line = (refl, (refl, (refl, tt)));
  name_word = (refl, (refl, (refl, tt)));
  pass_line = (refl, (refl, tt));
  name_readable = ann-IsReadable;
  pass_readable = (omega arith, refl);
  printable = home-IsPrintable;
}

serve-send_signup_example :
    (t : Server) × (packets : List Packet) × (serve 1 one_asking ≡ some t)
    × (t.dispatcher.sent ≡ packets)
    × (has_account ann (codes "pw") t.file ≡ true)
    × IsWellFormed t.file
    × IsListed t
    × (find ann t.dispatcher.users_map ≡ some 2)
    × (round (hearing 1 packets new_client)
        ≡ some (logged_in_as ann home (record new_client { inbox = [] })))
serve-send_signup_example =
    serve-send_signup one_asking 1 ann (codes "pw") new_client new_client [] []
      (ann-CanSignUp one_asking.dispatcher.inbox) refl

serve-send_signup_twice_example :
    (t u : Server) × (serve 1 two_asking ≡ some t)
    × (serve 2 t ≡ some u)
    × (has_account ann (codes "pw") u.file ≡ true)
    × (u.file ≡ t.file)
    × (u.dispatcher.users_map ≡ t.dispatcher.users_map)
    × (u.peers ≡ t.peers)
    × (u.dispatcher.all_users_infile_vector ≡ t.dispatcher.all_users_infile_vector)
    × (u.dispatcher.sent ≡ t.dispatcher.sent ++ command_packets 2 username_taken)
    × (round (hearing 2 (command_packets 2 username_taken) new_client)
        ≡ some (record new_client { inbox = [] }))
unfolding has_nul
serve-send_signup_twice_example =
    serve-send_signup_twice two_asking 1 2 ann (codes "pw") (codes "x") new_client new_client
      new_client [] [] [] [] (ann-CanSignUp two_asking.dispatcher.inbox) (omega arith) refl
      (omega arith, refl) refl refl
