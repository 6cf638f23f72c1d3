-- ===== src/Conversation/Gathering/OpeningTests.antt =====
-- bob opens a room (ClientSide/src/Client.cpp and ServerSide/src/Dispatcher.cpp).
use networking_programming_p.Base.{[], ◌∷◌, ◌++◌, ◌==◌, if◌then◌else◌}
use networking_programming_p.Wire.{chunk}
use networking_programming_p.Dispatcher.State.{Socket, World}
use networking_programming_p.Client.{Client}
use networking_programming_p.Client.Requests.{create_chat_room}
use networking_programming_p.Conversation.{news}
use networking_programming_p.Conversation.Tests.{ann, bob, two_users, world}
use networking_programming_p.Conversation.Gathering.{Gathering}
use networking_programming_p.Dispatcher.Loop
use networking_programming_p.Conversation.Gathering.Tests.{den, client_of}

-- There is no room, and bob asks for "den".
abbrev fresh_client : Socket → Client
fresh_client s = if s == 1 then client_of ann [] else client_of bob []

abbrev bob_alone : World
bob_alone = record (world [] ((ann, 0) ∷ (bob, 1) ∷ [])) {
  users = two_users;
  inbox = λ s.
      if s == 2
      then chunk (news (fresh_client 2) (create_chat_room den (fresh_client 2)) ++ []) ∷ []
      else [];
}
