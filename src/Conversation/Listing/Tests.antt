-- ===== src/Conversation/Listing/Tests.antt =====
-- A client asks for the users of the file, and prints them (ClientSide/src/Client.cpp and
-- ServerSide/src/Dispatcher.cpp).
use networking_programming_p.Base.{◌≡◌, refl, List, [], ◌∷◌, some, codes, arith}
use networking_programming_p.Address.{decimal, decimal_fuel}
use networking_programming_p.Dispatcher.State.{Packet, World}
use networking_programming_p.Dispatcher.Loop
use networking_programming_p.Client.{new_client}
use networking_programming_p.Client.Run.{round}
use networking_programming_p.Client.Printed.{round_lines}
use networking_programming_p.Conversation.{news, hearing}
use networking_programming_p.Conversation.Tests.{bob, world, ann-IsReadable, bob-IsReadable}
use networking_programming_p.Conversation.Listing.{in_file, request, round-request}

-- A dispatcher whose file has ann and bob, of whom bob is connected; the socket 1 asks.
abbrev asked : World
asked = world (news new_client (request in_file new_client)) ((bob, 1) ∷ [])

round-request_example :
    (v : World) × (packets : List Packet) × (Loop.round 1 asked ≡ some (tt, v))
    × (v.sent ≡ packets)
    × (round_lines (hearing 1 packets new_client)
        ≡ some (codes "*** ALL USERS ***" ∷ codes "User #1: ann" ∷ codes "User #2: bob" ∷ []))
    × (round (hearing 1 packets new_client) ≡ some (record new_client { inbox = [] }))
unfolding decimal decimal_fuel
round-request_example =
    round-request in_file asked 1 new_client new_client [] [] refl
      (ann-IsReadable, (bob-IsReadable, tt)) (omega arith) refl
