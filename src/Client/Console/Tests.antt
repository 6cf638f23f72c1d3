-- ===== src/Client/Console/Tests.antt =====
-- Runs of the client's console and of its peer (ClientSide/src/Client.cpp, main;
-- ClientSide/src/Peer2Peer.cpp, run).
use networking_programming_p.Base.{◌≡◌, refl, Str, List, [], ◌∷◌, some, true, codes, arith, str_eq}
use networking_programming_p.Wire.{has_nul}
use networking_programming_p.Client.{Partner, Datagram, Client, new_client}
use networking_programming_p.Client.Requests.{send_msg_to_session}
use networking_programming_p.Client.Peer.{
  IsShown, run, arriving, having_sent, run-send_msg_to_session,
}
use networking_programming_p.Client.Console.{Cli, loop}
use networking_programming_p.Client.Console.Ends.{HasStopped, loop-HasStopped}

abbrev typed : Str → Cli
typed text = record {
  client = new_client;
  username = [];
  password = [];
  room_name = [];
  ip = [];
  peer_usr = [];
  msg = [];
  input = text;
  dials = [];
}

-- Two commands, behind which the input is at its end.
loop-HasStopped_example : HasStopped (loop 8 (typed (codes "lu p\n")))
loop-HasStopped_example = loop-HasStopped 8 (typed (codes "lu p\n")) (omega arith)

abbrev bob : Partner
bob = record { name = codes "bob"; ip = codes "10.0.0.2"; port = 5000 }

abbrev eve : Partner
eve = record { name = codes "eve"; ip = codes "10.0.0.3"; port = 5001 }

-- ann in a room with bob and eve.
abbrev chatting : Client
chatting = record new_client {
  client_name = codes "ann";
  udp_sock = some 4000;
  is_in_session = true;
  is_in_chat_room = true;
  chatroom_partners = bob ∷ eve ∷ [];
}

hello-IsShown : IsShown (codes "[ann]:hello")
unfolding has_nul
hello-IsShown = (omega arith, refl)

run-send_msg_to_session_example :
    (ds : List Datagram) × (send_msg_to_session (codes "hello") chatting
      ≡ some (having_sent ds chatting))
    × (run (arriving (codes "10.0.0.3") 5001 ds) ≡ some (codes "[ann]:hello" ∷ []))
unfolding str_eq
run-send_msg_to_session_example =
    run-send_msg_to_session (codes "hello") 4000 chatting (codes "10.0.0.3") 5001 refl refl
      hello-IsShown
