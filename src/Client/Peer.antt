-- ===== src/Client/Peer.antt =====
-- The texts between clients (ClientSide/src/Peer2Peer.cpp, over msockets/src/UDPSocket.cpp): a
-- datagram that arrives is put into a buffer of 100 bytes and printed as a C string.
use networking_programming_p.Base.{
  ℕ, zero, suc, ◌≡◌, refl, sym, ap, ◌∙◌, ◌&&◌, append-nil, str_eq, Bool-cases, inl, inr, ◌<◌, Str,
  List, [], ◌∷◌, ◌++◌, append_assoc, map, Option, none, some, Bool, true, false, codes, length,
  arith, if◌then◌else◌, ◌==◌,
}
use networking_programming_p.Wire.{has_nul, until_nul}
use networking_programming_p.Client.{Partner, Datagram, Client}
use networking_programming_p.Client.Requests.{send_to, send_to_all, send_msg_to_session}

-- The size that run gives to calloc and to recv.
abbrev pub buffer_size : ℕ
buffer_size = 100

-- calloc
unfoldable pub zeros : ℕ → List ℕ
zeros zero = []
zeros (suc n) = 0 ∷ zeros n

-- recvfrom: the bytes over the front of the buffer; those that find no room are dropped.
unfoldable pub put_over : List ℕ → List ℕ → List ℕ
put_over [] bytes = []
put_over (z ∷ zs) [] = z ∷ zs
put_over (z ∷ zs) (b ∷ bs) = b ∷ put_over zs bs

-- cout << buff, where `none` reads past the buffer.
unfoldable pub c_string_of : List ℕ → Option Str
c_string_of buff = if has_nul buff then some (until_nul buff) else none

-- What recvfrom meets: a datagram with its text, or an error.
pub data Incoming : Type 0 where
  datagram : Str → Incoming
  failure : Incoming

-- The line that one round of run prints.
unfoldable pub printed : Incoming → Option Str
printed failure = some (codes "could not receive message")
printed (datagram text) = c_string_of (put_over (zeros buffer_size) text)

-- Peer2Peer::run; `running` is never cleared.
unfoldable pub run : List Incoming → Option (List Str)
run [] = some []
run (d ∷ ds) = elim (printed d) [
  | none ↦ none
  | some line ↦ elim (run ds) [ none ↦ none | some lines ↦ some (line ∷ lines) ]
]

put_over-has_nul : (n : ℕ) (text : Str) → length text < n → has_nul (put_over (zeros n) text) ≡ true
unfolding put_over zeros has_nul
put_over-has_nul zero text h = absurd (omega (arith, h))
put_over-has_nul (suc n) [] h = refl
put_over-has_nul (suc n) (b ∷ bs) h = ground (arith, put_over-has_nul n bs)

put_over-until_nul :
    (n : ℕ) (text : Str)
    → length text < n
    → has_nul text ≡ false
    → until_nul (put_over (zeros n) text) ≡ text
unfolding put_over zeros has_nul until_nul
put_over-until_nul zero text h k = absurd (omega (arith, h))
put_over-until_nul (suc n) [] h k = refl
put_over-until_nul (suc n) (b ∷ bs) h k = ground (arith, put_over-until_nul n bs)

-- A text that run prints whole.
abbrev pub IsShown : Str → Type 0
IsShown text = (length text < buffer_size) × (has_nul text ≡ false)

printed-shown : (text : Str) → IsShown text → printed (datagram text) ≡ some text
unfolding printed c_string_of
printed-shown text (h, k) =
    rw (put_over-has_nul buffer_size text h, put_over-until_nul buffer_size text h k) refl

-- The datagrams to one address, as they arrive there.
abbrev pub arriving : Str → ℕ → List Datagram → List Incoming
arriving ip port [] = []
arriving ip port (d ∷ ds) =
    if str_eq d.ip ip && d.port == port
    then datagram d.text ∷ arriving ip port ds
    else arriving ip port ds

abbrev pub partners_at : Str → ℕ → List Partner → List Partner
partners_at ip port [] = []
partners_at ip port (p ∷ ps) =
    if str_eq p.ip ip && p.port == port then p ∷ partners_at ip port ps else partners_at ip port ps

-- The text that the client makes of a message, and the partners that it sends it to.
abbrev pub said : Client → Str → Str
said c msg =
    if c.is_in_chat_room
    then b'[' ∷ (c.client_name ++ (b']' ∷ b':' ∷ msg))
    else b'[' ∷ (c.client_name ++ (b']' ∷ msg))

abbrev pub addressees : Client → List Partner
addressees c = if c.is_in_chat_room then c.chatroom_partners else c.session_partner ∷ []

abbrev pub datagrams_to : Str → List Partner → List Datagram
datagrams_to text [] = []
datagrams_to text (p ∷ ps) = record { text = text; ip = p.ip; port = p.port } ∷ datagrams_to text ps

-- The client after it has sent more datagrams.
abbrev pub having_sent : List Datagram → Client → Client
having_sent ds c = record c { sent_datagrams = c.sent_datagrams ++ ds }

send_to_lem :
    (text : Str) (p : Partner) (own : ℕ) (c : Client)
    → c.udp_sock ≡ some own
    → send_to text p.ip p.port c ≡ some (having_sent (datagrams_to text (p ∷ [])) c)
unfolding send_to
send_to_lem text p own c u =
    ap
      (λ (o : Option ℕ). elim o [
        | none ↦ none
        | some n ↦ some (having_sent (datagrams_to text (p ∷ [])) c)
      ])
      u

send_to_all_lem :
    (text : Str) (ps : List Partner) (own : ℕ) (c : Client)
    → c.udp_sock ≡ some own
    → send_to_all text ps c ≡ some (having_sent (datagrams_to text ps) c)
unfolding send_to_all
send_to_all_lem text [] own c u =
    ap (λ (ds : List Datagram). some (record c { sent_datagrams = ds }))
      (sym (append-nil c.sent_datagrams))
send_to_all_lem text (p ∷ ps) own c u =
    ap (λ (o : Option Client). elim o [ none ↦ none | some c' ↦ send_to_all text ps c' ])
      (send_to_lem text p own c u)
    ∙ send_to_all_lem text ps own (having_sent (datagrams_to text (p ∷ [])) c) u
    ∙ ap (λ (ds : List Datagram). some (record c { sent_datagrams = ds }))
        (append_assoc c.sent_datagrams (datagrams_to text (p ∷ [])) (datagrams_to text ps))

send_msg_to_session_lem :
    (msg : Str) (own : ℕ) (c : Client)
    → c.udp_sock ≡ some own
    → c.is_in_session ≡ true
    → send_msg_to_session msg c ≡ some (having_sent (datagrams_to (said c msg) (addressees c)) c)
unfolding send_msg_to_session
send_msg_to_session_lem msg own c u i =
    ap (λ (b : Bool). if b then sending c.is_in_chat_room else some c) i ∙ sent c.is_in_chat_room
  where
    to_room : Str
    to_room = b'[' ∷ (c.client_name ++ (b']' ∷ b':' ∷ msg))

    to_partner : Str
    to_partner = b'[' ∷ (c.client_name ++ (b']' ∷ msg))

    sending : Bool → Option Client
    sending b =
        if b
        then send_to_all to_room c.chatroom_partners c
        else send_to to_partner c.session_partner.ip c.session_partner.port c

    sent :
        (b : Bool)
        → sending b
          ≡ some (
              having_sent
                (datagrams_to
                  (if b then to_room else to_partner)
                  (if b then c.chatroom_partners else c.session_partner ∷ []))
                c)
    sent true = send_to_all_lem to_room c.chatroom_partners own c u
    sent false = send_to_lem to_partner c.session_partner own c u

run-datagram :
    (text : Str) (ds : List Incoming) (lines : List Str)
    → IsShown text
    → run ds ≡ some lines
    → run (datagram text ∷ ds) ≡ some (text ∷ lines)
unfolding run
run-datagram text ds lines s e = rw (run, printed-shown text s, e) refl

run-arriving :
    (text ip : Str) (port : ℕ) (ps : List Partner)
    → IsShown text
    → run (arriving ip port (datagrams_to text ps))
      ≡ some (map (λ p. text) (partners_at ip port ps))
unfolding run
run-arriving text ip port [] s = refl
run-arriving text ip port (p ∷ ps) s = elim (Bool-cases (str_eq p.ip ip && p.port == port)) [
  | inl e ↦ rw e (run-datagram text _ _ s (run-arriving text ip port ps s))
  | inr e ↦ rw e (run-arriving text ip port ps s)
]

-- A message that a client in a session or a chat room sends, together with the client's name
-- shorter than the buffer and without a NUL, goes to every partner: at each address, the peer
-- prints the name and the message once for every partner there, and nothing at any other.
pub run-send_msg_to_session :
    (msg : Str) (own : ℕ) (c : Client) (ip : Str) (port : ℕ)
    → c.udp_sock ≡ some own
    → c.is_in_session ≡ true
    → IsShown (said c msg)
    → (ds : List Datagram) × (send_msg_to_session msg c ≡ some (having_sent ds c))
      × (run (arriving ip port ds)
          ≡ some (map (λ p. said c msg) (partners_at ip port (addressees c))))
run-send_msg_to_session msg own c ip port u i s = (
  datagrams_to (said c msg) (addressees c),
  send_msg_to_session_lem msg own c u i,
  run-arriving (said c msg) ip port (addressees c) s,
)
