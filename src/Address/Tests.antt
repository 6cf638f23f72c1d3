-- ===== src/Address/Tests.antt =====
-- An address printed and read.
use networking_programming_p.Base.{◌≡◌, refl, codes, arith}
use networking_programming_p.Address.{SockAddr, dest_ip_and_port, parse_address}
use networking_programming_p.Address.RoundTrip.{parse_address-dest_ip_and_port}

abbrev home : SockAddr
home = record { ip = codes "10.0.0.1"; port = 8080 }

parse_address-dest_ip_and_port_example : parse_address (dest_ip_and_port home) ≡ home
parse_address-dest_ip_and_port_example =
    parse_address-dest_ip_and_port home
      (refl, (refl, (refl, (refl, (refl, (refl, (refl, (refl, tt)))))))) (omega arith)
