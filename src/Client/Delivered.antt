-- ===== src/Client/Delivered.antt =====
-- Packets of the server as the stream of one client, and the client's reads of it.
use networking_programming_p.Base.{
  ℕ, ◌^◌, ◌<◌, Str, List, [], ◌∷◌, ◌++◌, append_assoc, append-nil, Option, some, true, false, ◌≡◌,
  ◌∙◌, ap, ◌==◌, if◌then◌else◌, length, arith,
}
use networking_programming_p.Wire.{
  Arrival, chunk, leftover, has_nul, buffer_size, read_msg, read_command, command_bytes, msg_bytes,
  htonl,
}
use networking_programming_p.Wire.RoundTrip.{read_msg-msg_bytes, read_command-command_bytes}
use networking_programming_p.Address.{SockAddr, dest_ip_and_port}
use networking_programming_p.Address.RoundTrip.{HasNoColon}
use networking_programming_p.Dispatcher.State.{Socket, Packet}
use networking_programming_p.Dispatcher.Monad.{command_packets, msg_packets}
use networking_programming_p.Client.{Client, with_msg, with_msg_lem}
use networking_programming_p.Client.Run.{switch, round}

-- The bytes that one socket is sent.
unfoldable pub delivered : Socket → List Packet → List ℕ
delivered s [] = []
delivered s (p ∷ ps) = if p.0 == s then p.1 ++ delivered s ps else delivered s ps

-- A text that readMsg gives back.
abbrev pub IsReadable : Str → Type 0
IsReadable s = (length s < buffer_size) × (has_nul s ≡ false)

-- An address whose text the client can read.
abbrev pub IsPrintable : SockAddr → Type 0
IsPrintable a = HasNoColon a.ip × (a.port < 65536) × IsReadable (dest_ip_and_port a)

pub read_msg-leftover :
    (s : Str) (rest : List ℕ) (q : List Arrival)
    → IsReadable s
    → read_msg (leftover (msg_bytes s ++ rest) q) ≡ some (s, leftover rest q)
unfolding msg_bytes htonl
read_msg-leftover s rest q h =
    unfold msg_bytes in unfold htonl in read_msg-msg_bytes s rest q h.0 h.1

pub read_command-leftover :
    (n : ℕ) (rest : List ℕ) (q : List Arrival)
    → n < 2 ^ 32
    → read_command (leftover (command_bytes n ++ rest) q) ≡ (n, leftover rest q)
unfolding command_bytes htonl
read_command-leftover n rest q h =
    unfold command_bytes in unfold htonl in read_command-command_bytes n rest q h

-- The client after its stream has moved on.
abbrev pub moved : List Arrival → Client → Client
moved q c = record c { inbox = q }

-- A command that arrives with what follows it in one portion is taken to the switch.
pub round_heard :
    (command : ℕ) (after : List ℕ) (q : List Arrival) (c : Client)
    → (command == 0) ≡ false
    → command < 2 ^ 32
    → c.inbox ≡ chunk (command_bytes command ++ after) ∷ q
    → round c ≡ switch command (moved (leftover after q) c)
unfolding round
round_heard command after q c z b e =
    let heard : read_command c.inbox ≡ (command, leftover after q) =
      ap read_command e ∙ read_command-command_bytes command after q b in
    rw (heard, z)

pub same_eq : (n : ℕ) → (n == n) ≡ true
same_eq n = ground arith

pub delivered-command_hit :
    (s n : ℕ) (ps : List Packet)
    → delivered s (command_packets s n ++ ps) ≡ command_bytes n ++ delivered s ps
unfolding delivered
delivered-command_hit s n ps = rw (same_eq s)

pub delivered-msg_hit :
    (s : ℕ) (t : Str) (ps : List Packet)
    → delivered s (msg_packets s t ++ ps) ≡ msg_bytes t ++ delivered s ps
unfolding delivered msg_bytes
delivered-msg_hit s t ps = rw (same_eq s) (rw append_assoc)

pub delivered-msg_last : (s : ℕ) (t : Str) → delivered s (msg_packets s t) ≡ msg_bytes t
unfolding delivered msg_bytes
delivered-msg_last s t = rw (same_eq s) (rw append-nil)

pub delivered-command_miss :
    (s r n : ℕ) (ps : List Packet)
    → (r == s) ≡ false
    → delivered s (command_packets r n ++ ps) ≡ delivered s ps
unfolding delivered
delivered-command_miss s r n ps h = rw h

pub delivered-msg_miss :
    (s r : ℕ) (t : Str) (ps : List Packet)
    → (r == s) ≡ false
    → delivered s (msg_packets r t ++ ps) ≡ delivered s ps
unfolding delivered
delivered-msg_miss s r t ps h = rw h

pub delivered-msg_missed :
    (s r : ℕ) (t : Str) → (r == s) ≡ false → delivered s (msg_packets r t) ≡ []
unfolding delivered
delivered-msg_missed s r t h = rw h

-- A name and an address, read one after the other.
pub with_pair_lem :
    (k : Str → Str → Client → Option Client) (c : Client) (name text : Str) (rest : List ℕ)
    (q : List Arrival)
    → IsReadable name
    → IsReadable text
    → c.inbox ≡ leftover (msg_bytes name ++ (msg_bytes text ++ rest)) q
    → with_msg (λ n. with_msg (k n)) c ≡ k name text (moved (leftover rest q) c)
with_pair_lem k c name text rest q n t e =
    let after = leftover (msg_bytes text ++ rest) q in
    with_msg_lem (λ m. with_msg (k m)) c name after
      (ap read_msg e ∙ read_msg-leftover name (msg_bytes text ++ rest) q n)
    ∙ with_msg_lem (k name) (moved after c) text (leftover rest q) (read_msg-leftover text rest q t)
