-- ===== src/Client/Tests.antt =====
-- Runs of the client.
use networking_programming_p.Base.{◌≡◌, refl, Str, List, [], ◌∷◌, none, some, true, codes, str_eq}
use networking_programming_p.Wire.{
  chunk, msg_bytes, htonl, read_msg, recv, portion, c_string, to_size, ntohl, has_nul, until_nul,
  msg_body, msg_text,
}
use networking_programming_p.Client.{Partner, Client, new_client}
use networking_programming_p.Client.Handlers.{user_has_left_chatroom}
use networking_programming_p.Client.Run.{run}
use networking_programming_p.Client.Partners.{user_has_left_chatroom-unlisted}
use networking_programming_p.Client.Sessions.{run-closed}

abbrev partner : Str → Partner
partner name = record { name = name; ip = codes "10.0.0.1"; port = 5000 }

-- A client that hears that bob has left.
abbrev hearing : List Partner → Client
hearing ps = record new_client {
  client_name = codes "ann";
  chatroom_partners = ps;
  inbox = chunk (msg_bytes (codes "bob")) ∷ [];
}

user_has_left_chatroom-unlisted_example :
    user_has_left_chatroom (hearing (partner (codes "eve") ∷ [])) ≡ none
unfolding msg_bytes htonl read_msg recv portion c_string to_size ntohl has_nul until_nul msg_body
    msg_text str_eq
user_has_left_chatroom-unlisted_example =
    user_has_left_chatroom-unlisted (hearing (partner (codes "eve") ∷ [])) (codes "bob") [] refl
      refl (refl, tt)

abbrev waiting : Client
waiting = record new_client { connection_status = true }

run-closed_example : run 9 waiting ≡ some waiting
run-closed_example = run-closed 9 waiting refl refl
