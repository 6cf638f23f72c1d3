-- ===== src/Address.antt =====
-- The address of a peer as TCPSocket::destIpAndPort prints it (msockets/src/TCPSocket.cpp) and as
-- the client takes it apart again (ClientSide/src/Client.cpp).
pub mod RoundTrip
pub mod Tests
use networking_programming_p.Base.{
  ℕ, zero, suc, ◌+◌, ◌-◌, ◌*◌, ◌/◌, ◌%◌, Str, List, [], ◌∷◌, ◌++◌, Bool, true, false, ◌&&◌, leb,
  ltb, ◌==◌, if◌then◌else◌,
}

-- A connected peer: the text that inet_ntoa gives for its address, and its port.
pub record SockAddr : Type 0 where
  pub ip : Str
  pub port : ℕ

-- sprintf("%d", n) on fuel; every digit takes one unit.
unfoldable pub decimal_fuel : ℕ → ℕ → Str → Str
decimal_fuel zero n acc = acc
decimal_fuel (suc f) n acc =
    let rest = decimal_fuel f (n / 10) ((48 + n % 10) ∷ acc) in
    if ltb n 10 then (48 + n % 10) ∷ acc else rest

-- Ten units are enough for every 32-bit number.
unfoldable pub decimal : ℕ → Str
unfolding decimal_fuel
decimal n = decimal_fuel 10 n []

-- TCPSocket::destIpAndPort
unfoldable pub dest_ip_and_port : SockAddr → Str
unfolding decimal
dest_ip_and_port a = a.ip ++ (b':' ∷ decimal a.port)

-- The loop over the bytes of an address in gotChatroomUsersList, gotIpAndPort, loggedIn,
-- gotIncomingSession and userHasJoinedChatroom: what stands before the first colon goes to the ip,
-- what stands behind it, less further colons, to the port.
unfoldable pub scan_address : Bool → Str → Str → Str → Str × Str
scan_address found ip port [] = (ip, port)
scan_address found ip port (c ∷ s) =
    let delim = scan_address true ip port s in
    let in_ip = scan_address found (ip ++ (c ∷ [])) port s in
    let in_port = scan_address found ip (port ++ (c ∷ [])) s in
    if c == b':' then delim else if found then in_port else in_ip

-- atoi of a text of digits: the value of the digits at its start.
unfoldable pub atoi_from : ℕ → Str → ℕ
atoi_from n [] = n
atoi_from n (c ∷ s) =
    let rest = atoi_from (n * 10 + (c - 48)) s in if leb 48 c && leb c 57 then rest else n

unfoldable pub atoi : Str → ℕ
atoi s = atoi_from 0 s

-- The ip and the port that the client takes from the text of an address.
unfoldable pub parse_address : Str → SockAddr
parse_address text =
    let (ip, port) = scan_address false [] [] text in record { ip = ip; port = atoi port }
