-- ===== src/Client.antt =====
-- The client object: its state, what it sends, and its answers to the server's messages
-- (ClientSide/src/Client.h, ClientSide/src/Client.cpp). The lines it prints are in Printed.
-- A result `none` is undefined behaviour, as in Dispatcher/Monad.
pub mod Requests
pub mod Handlers
pub mod Run
pub mod Printed
pub mod Partners
pub mod Delivered
pub mod Sessions
pub mod Rooms
pub mod Departures
pub mod Lists
pub mod Console
pub mod Peer
pub mod Tests
use networking_programming_p.Base.{
  ℕ, Str, List, [], ◌∷◌, ◌++◌, Option, none, some, Bool, false, length, ◌≡◌, refl,
}
use networking_programming_p.Wire.{Arrival, read_msg, command_bytes, htonl}

pub record Partner : Type 0 where
  pub name : Str
  pub ip : Str
  pub port : ℕ

-- Partner::Clean
abbrev pub clean : Partner
clean = record { name = []; ip = []; port = 0 }

-- What Peer2Peer::sendTo is given: the text, and the ip and port it goes to.
pub record Datagram : Type 0 where
  pub text : Str
  pub ip : Str
  pub port : ℕ

-- The fields of Client with its end of the network: `udp_sock` is NULL or the port it is bound
-- to, `inbox` what arrives on server_sock, and `sent` one entry for each call of `send` on it.
pub record Client : Type 0 where
  pub client_name : Str
  pub chat_name : Str
  pub udp_sock : Option ℕ
  pub session_partner : Partner
  pub chatroom_partners : List Partner
  pub connection_status : Bool
  pub is_in_session : Bool
  pub is_in_chat_room : Bool
  pub is_room_owner : Bool
  pub is_logged_in : Bool
  pub is_connected_to_server : Bool
  pub inbox : List Arrival
  pub sent : List (List ℕ)
  pub sent_datagrams : List Datagram
  pub is_closed : Bool

-- Client::Client; the partner's port is not set there, and is 0 here.
abbrev pub new_client : Client
new_client = record {
  client_name = [];
  chat_name = [];
  udp_sock = none;
  session_partner = clean;
  chatroom_partners = [];
  connection_status = false;
  is_in_session = false;
  is_in_chat_room = false;
  is_room_owner = false;
  is_logged_in = false;
  is_connected_to_server = false;
  inbox = [];
  sent = [];
  sent_datagrams = [];
  is_closed = false;
}

-- writeCommand and writeMsg on server_sock
abbrev pub write_command : ℕ → Client → Client
write_command command c = record c { sent = c.sent ++ (command_bytes command ∷ []) }

abbrev pub write_msg : Str → Client → Client
write_msg msg c = record c { sent = c.sent ++ (htonl (length msg) ∷ msg ∷ []) }

-- readMsg on server_sock, and what goes on with the text.
unfoldable pub with_msg : (Str → Client → Option Client) → Client → Option Client
with_msg k c = elim (read_msg c.inbox) [
  | none ↦ none
  | some (msg, rest) ↦ k msg (record c { inbox = rest })
]

pub with_msg_lem :
    (k : Str → Client → Option Client) (c : Client) (msg : Str) (rest : List Arrival)
    → read_msg c.inbox ≡ some (msg, rest)
    → with_msg k c ≡ k msg (record c { inbox = rest })
unfolding with_msg
with_msg_lem k c msg rest e = rw (with_msg, e) refl
