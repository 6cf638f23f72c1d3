-- ===== src/Address/RoundTrip.antt =====
-- The text of an address between destIpAndPort (msockets/src/TCPSocket.cpp) and the loops of
-- ClientSide/src/Client.cpp.
use networking_programming_p.Base.{
  ℕ, zero, suc, ◌+◌, ◌*◌, ◌/◌, ◌%◌, ◌<◌, ◌≡◌, refl, ◌∙◌, ap, ◌⊎◌, inl, inr, Str, [], ◌∷◌, ◌++◌,
  append_assoc, append-nil, true, false, arith, ◌==◌, ltb, Bool-cases,
}
use networking_programming_p.Address.{
  SockAddr, decimal_fuel, decimal, dest_ip_and_port, scan_address, atoi_from, atoi, parse_address,
}

-- The fuel reaches a number of one digit.
abbrev Reaches : ℕ → ℕ → Type 0
Reaches zero n = ⊥
Reaches (suc f) n = (n < 10) ⊎ Reaches f (n / 10)

atoi_from-digit :
    (k d : ℕ) (s : Str) → d < 10 → atoi_from k ((48 + d) ∷ s) ≡ atoi_from (k * 10 + d) s
unfolding atoi_from
atoi_from-digit k d s h = ground arith

atoi_from-decimal_fuel :
    (f n : ℕ) (acc : Str) → Reaches f n → atoi_from 0 (decimal_fuel f n acc) ≡ atoi_from n acc
unfolding decimal_fuel
atoi_from-decimal_fuel zero n acc r = absurd r
atoi_from-decimal_fuel (suc f) n acc r =
    let whole : n / 10 * 10 + n % 10 ≡ n = omega arith in
    let digit : n % 10 < 10 = omega arith in
    elim (Bool-cases (ltb n 10)) [
      | inl e ↦
          let small : 0 * 10 + n % 10 ≡ n = ground arith in
          rw e (atoi_from-digit 0 (n % 10) acc digit ∙ ap (λ (k : ℕ). atoi_from k acc) small)
      | inr e ↦
          let deeper : Reaches f (n / 10) = ground arith in
          rw e (
            atoi_from-decimal_fuel f (n / 10) ((48 + n % 10) ∷ acc) deeper
            ∙ atoi_from-digit (n / 10) (n % 10) acc digit
            ∙ ap (λ (k : ℕ). atoi_from k acc) whole)
    ]

-- No byte of an ip as inet_ntoa writes it is a colon.
abbrev pub HasNoColon : Str → Type 0
HasNoColon [] = Unit
HasNoColon (c ∷ s) = ((c == b':') ≡ false) × HasNoColon s

scan_address-ip :
    (ip s rest : Str)
    → HasNoColon s
    → scan_address false ip [] (s ++ rest) ≡ scan_address false (ip ++ s) [] rest
unfolding scan_address
scan_address-ip ip [] rest h = rw append-nil
scan_address-ip ip (c ∷ s) rest h =
    rw h.0 (scan_address-ip (ip ++ (c ∷ [])) s rest h.1 ∙ rw append_assoc)

scan_address-port : (ip port s : Str) → HasNoColon s → scan_address true ip port s ≡ (ip, port ++ s)
unfolding scan_address
scan_address-port ip port [] h = rw append-nil
scan_address-port ip port (c ∷ s) h =
    rw h.0 (scan_address-port ip (port ++ (c ∷ [])) s h.1 ∙ rw append_assoc)

decimal_fuel-HasNoColon : (f n : ℕ) (acc : Str) → HasNoColon acc → HasNoColon (decimal_fuel f n acc)
unfolding decimal_fuel
decimal_fuel-HasNoColon zero n acc h = h
decimal_fuel-HasNoColon (suc f) n acc h =
    ground (arith, decimal_fuel-HasNoColon f (n / 10) ((48 + n % 10) ∷ acc))

atoi-decimal : (n : ℕ) → n < 65536 → atoi (decimal n) ≡ n
unfolding atoi decimal atoi_from
atoi-decimal n h = atoi_from-decimal_fuel 10 n [] (inr (inr (inr (inr (inl (omega arith))))))

decimal-HasNoColon : (n : ℕ) → HasNoColon (decimal n)
unfolding decimal
decimal-HasNoColon n = decimal_fuel-HasNoColon 10 n [] tt

scan_address-colon : (ip s : Str) → scan_address false ip [] (b':' ∷ s) ≡ scan_address true ip [] s
unfolding scan_address
scan_address-colon ip s = refl

abbrev address_at : Str → ℕ → SockAddr
address_at ip port = record { ip = ip; port = port }

-- When the ip holds no colon and the port fits 16 bits, the address that the client reads out of
-- the text that destIpAndPort makes of an address is that address.
pub parse_address-dest_ip_and_port :
    (a : SockAddr) → HasNoColon a.ip → a.port < 65536 → parse_address (dest_ip_and_port a) ≡ a
unfolding parse_address dest_ip_and_port
parse_address-dest_ip_and_port a h p =
    let scanned : scan_address false [] [] (a.ip ++ (b':' ∷ decimal a.port))
        ≡ (a.ip, decimal a.port) =
      scan_address-ip [] a.ip (b':' ∷ decimal a.port) h
      ∙ scan_address-colon a.ip (decimal a.port)
      ∙ scan_address-port a.ip [] (decimal a.port) (decimal-HasNoColon a.port) in
    rw scanned (ap (λ (n : ℕ). address_at a.ip n) (atoi-decimal a.port p))
