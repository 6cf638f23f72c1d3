-- ===== src/Wire.antt =====
-- The framing that server and client share (ServerSide/src/Common.h, ClientSide/src/Common.h)
-- over the TCPSocket calls `recv` and `send` (msockets/src/TCPSocket.cpp).
-- The kernel is the environment: a connection's incoming bytes are a list of arrivals, one for
-- each portion that read(2) finds, so every way to split the stream is a list.
pub mod RoundTrip
pub mod Bounds
pub mod Tests
use mathlib.Core.Option
use networking_programming_p.Base.{
  ℕ, ◌+◌, ◌-◌, ◌*◌, ◌/◌, ◌%◌, ◌^◌, Str, List, [], ◌∷◌, ◌++◌, Option, none, some, Bool, true, false,
  ◌&&◌, ◌||◌, ltb, ◌==◌, if◌then◌else◌, length, take, drop, get_or, codes,
}

-- What read(2) meets next: some bytes, or an error. With no arrival left the peer has closed.
pub data Arrival : Type 0 where
  chunk : List ℕ → Arrival
  failure : Arrival

-- The outcome of a read: the bytes put into the buffer (none at the end of the stream), or -1.
pub data Received : Type 0 where
  got : List ℕ → Received
  failed : Received

-- The queue after a part of its first portion was taken.
abbrev pub leftover : List ℕ → List Arrival → List Arrival
leftover [] q = q
leftover (b ∷ bs) q = chunk (b ∷ bs) ∷ q

-- At most `n` bytes of the next portion.
unfoldable pub portion : ℕ → List Arrival → Received × List Arrival
portion n [] = (got [], [])
portion n (failure ∷ q) = (failed, q)
portion n (chunk bs ∷ q) = (got (take n bs), leftover (drop n bs) q)

-- TCPSocket::recv, that is read(2): a request for no bytes takes none.
unfoldable pub recv : ℕ → List Arrival → Received × List Arrival
recv n q = if n == 0 then (got [], q) else portion n q

-- The bytes that a read has put into its buffer.
abbrev pub written : Received → List ℕ
written (got bs) = bs
written failed = []

-- `!recived` in C: 1 if the count is 0, and 0 for any other count, -1 included.
abbrev pub c_not : Received → ℕ
c_not (got []) = 1
c_not (got (b ∷ bs)) = 0
c_not failed = 0

-- `ntohl` of an integer that was 0 before the bytes were written over it.
unfoldable pub ntohl : List ℕ → ℕ
ntohl bs = get_or bs 0 0 * 2 ^ 24 + get_or bs 1 0 * 2 ^ 16 + get_or bs 2 0 * 2 ^ 8 + get_or bs 3 0

-- The four bytes of `htonl((uint32_t) n)`.
unfoldable pub htonl : ℕ → List ℕ
htonl n = n / 2 ^ 24 % 2 ^ 8 ∷ n / 2 ^ 16 % 2 ^ 8 ∷ n / 2 ^ 8 % 2 ^ 8 ∷ n % 2 ^ 8 ∷ []

-- readCommand; the value is the bit pattern of the int.
unfoldable pub read_command : List Arrival → ℕ × List Arrival
read_command q = let (r, rest) = recv 4 q in (if c_not r == 4 then 0 else ntohl (written r), rest)

-- The bytes of writeCommand's one call of `send`.
unfoldable pub command_bytes : ℕ → List ℕ
command_bytes n = htonl n

-- The bytes of writeMsg's two calls of `send`.
unfoldable pub msg_bytes : Str → List ℕ
msg_bytes msg = htonl (length msg) ++ msg

-- char rcvmsg[300]
abbrev pub buffer_size : ℕ
buffer_size = 300

-- An int that is passed as a size_t: a negative one becomes huge.
unfoldable pub to_size : ℕ → ℕ
to_size len = if ltb len (2 ^ 31) then len else len + (2 ^ 64 - 2 ^ 32)

-- The bytes before the first NUL.
unfoldable pub until_nul : List ℕ → Str
until_nul [] = []
until_nul (b ∷ bs) = if b == 0 then [] else b ∷ until_nul bs

unfoldable pub has_nul : List ℕ → Bool
has_nul [] = false
has_nul (b ∷ bs) = b == 0 || has_nul bs

-- string(rcvmsg) over the zeroed buffer with `bs` written at its start. `none`: the write ran
-- over the end of the buffer, or no NUL stands in it, and the behaviour is undefined.
unfoldable pub c_string : List ℕ → Option Str
c_string bs =
    if ltb (length bs) buffer_size || (length bs == buffer_size && has_nul bs)
    then some (until_nul bs)
    else none

-- The end of readMsg: the text in the buffer after the second read.
unfoldable pub msg_text : Received × List Arrival → Option (Str × List Arrival)
msg_text (body, q) = Option.map (λ s. (s, q)) (c_string (written body))

-- readMsg after its first read.
unfoldable pub msg_body : Received × List Arrival → Option (Str × List Arrival)
msg_body (header, q) =
    if ltb 0 (c_not header)
    then some (codes "0", q)
    else msg_text (recv (to_size (ntohl (written header))) q)

-- readMsg
unfoldable pub read_msg : List Arrival → Option (Str × List Arrival)
unfolding msg_body msg_text
read_msg q = msg_body (recv 4 q)
