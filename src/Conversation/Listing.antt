-- ===== src/Conversation/Listing.antt =====
-- A list from the request of a client to the lines that it prints: Client::getUsers, listAllUsers
-- and listAllChatrooms (ClientSide/src/Client.cpp), a round of Dispatcher::run
-- (ServerSide/src/Dispatcher.cpp), and a round of Client::run.
pub mod Tests
use networking_programming_p.Base.{
  ℕ, ◌^◌, ◌<◌, ◌≡◌, refl, sym, ap, subst, ◌∙◌, Str, List, [], ◌∷◌, ◌++◌, append-nil, append_assoc,
  some, false, arith, length, drop-append, All, ◌==◌, inl, inr,
}
use networking_programming_p.Wire.{Arrival, chunk, leftover, read_command, command_bytes}
use networking_programming_p.Wire.RoundTrip.{read_command-command_bytes}
use networking_programming_p.OrderedMap.{keys}
use networking_programming_p.Protocol.{
  get_all_users, get_all_connected_users, get_all_chatrooms, all_users_list, users_list,
  chatrooms_list,
}
use networking_programming_p.Dispatcher.State.{Pointer, Socket, Packet, World}
use networking_programming_p.Dispatcher.Monad.{◌>>=◌, load_user}
use networking_programming_p.Dispatcher.Steps.{send, >>=_step}
use networking_programming_p.Dispatcher.Sends.{list_packets, write_list_lem}
use networking_programming_p.Dispatcher.Listings.{
  write_list, list_all_users, list_users, list_chatrooms,
}
use networking_programming_p.Dispatcher.Loop.{handle}
use networking_programming_p.Dispatcher.Loop
use networking_programming_p.Dispatcher.Taken.{taken, round-handle, taken-socket}
use networking_programming_p.Client.{Client, write_command}
use networking_programming_p.Client.Requests
use networking_programming_p.Client.Run.{round}
use networking_programming_p.Client.Delivered.{IsReadable, delivered}
use networking_programming_p.Client.Lists.{IsNamesList, round-list_packets}
use networking_programming_p.Client.Printed.{round_lines}
use networking_programming_p.Client.Printed.Lists.{list_lines, round_lines-list_packets}
use networking_programming_p.Conversation.{news, hearing}

-- The three lists that take no argument.
pub data Listing : Type 0 where
  in_file : Listing
  connected : Listing
  rooms : Listing

abbrev pub request : Listing → Client → Client
request in_file = Requests.get_users
request connected = Requests.list_all_users
request rooms = Requests.list_all_chatrooms

-- The command of the request, the one of the answer, and what is listed.
abbrev pub asks : Listing → ℕ
asks in_file = get_all_users
asks connected = get_all_connected_users
asks rooms = get_all_chatrooms

abbrev pub answers : Listing → ℕ
answers in_file = all_users_list
answers connected = users_list
answers rooms = chatrooms_list

abbrev pub listed_names : Listing → World → List Str
listed_names in_file w = w.all_users_infile_vector
listed_names connected w = keys w.users_map
listed_names rooms w = keys w.chatrooms_map

news-request :
    (l : Listing) (c : Client) (rest : List ℕ)
    → news c (request l c) ++ rest ≡ command_bytes (asks l) ++ rest
unfolding Requests.get_users Requests.list_all_users Requests.list_all_chatrooms
news-request in_file c rest = simp (drop-append, append-nil)
news-request connected c rest = simp (drop-append, append-nil)
news-request rooms c rest = simp (drop-append, append-nil)

answers-IsNamesList : (l : Listing) → IsNamesList (answers l)
answers-IsNamesList in_file = inl refl
answers-IsNamesList connected = inr (inl refl)
answers-IsNamesList rooms = inr (inr (inl refl))

asks-small : (l : Listing) → asks l < 2 ^ 32
asks-small in_file = omega arith
asks-small connected = omega arith
asks-small rooms = omega arith

-- The handler of the request sends the list and does nothing else.
handle-asks :
    (l : Listing) (user : Pointer) (w : World)
    → handle (asks l) user w
      ≡ some (tt, send (list_packets (w.users user).socket (answers l) (listed_names l w)) w)
unfolding handle list_all_users list_users list_chatrooms ◌>>=◌
handle-asks in_file user w = write_list_lem _ _ _ w
handle-asks connected user w = write_list_lem _ _ _ w
handle-asks rooms user w = write_list_lem _ _ _ w

listed-taken :
    (l : Listing) (sock : Socket) (q : List Arrival) (w : World)
    → listed_names l (taken sock q w) ≡ listed_names l w
unfolding taken
listed-taken in_file sock q w = refl
listed-taken connected sock q w = refl
listed-taken rooms sock q w = refl

-- When what a client writes to get the users of the file, the connected users or the rooms arrives
-- at the dispatcher, one round answers it without a fault, and what it sends makes the client, in
-- one round, print exactly the names that the dispatcher has, in their order, and leaves the
-- client as it was: if the names can be read and there are fewer than 2^31 of them.
pub round-request :
    (l : Listing) (w : World) (sock : Socket) (c a : Client) (rest : List ℕ) (q : List Arrival)
    → (sock == 0) ≡ false
    → All IsReadable (listed_names l w)
    → length (listed_names l w) < 2 ^ 31
    → w.inbox sock ≡ chunk (news c (request l c) ++ rest) ∷ q
    → (v : World) × (packets : List Packet) × (Loop.round sock w ≡ some (tt, v))
      × (v.sent ≡ w.sent ++ packets)
      × (round_lines (hearing sock packets a) ≡ some (list_lines (answers l) (listed_names l w)))
      × (round (hearing sock packets a) ≡ some (record a { inbox = [] }))
unfolding taken
round-request l w sock c a rest q z h few e =
    let v = taken sock (leftover rest q) w in
    let packets = list_packets sock (answers l) (listed_names l w) in
    let whole = ap (λ bs. chunk bs ∷ []) (sym (append-nil (delivered sock packets))) in
    (
      send packets v,
      packets,
      round-handle sock (asks l) (leftover rest q) w z (
            ap read_command (e ∙ ap (λ bs. chunk bs ∷ q) (news-request l c rest))
            ∙ read_command-command_bytes (asks l) rest q (asks-small l))
          ∙ handle-asks l w.next_user v
          ∙ ap (λ (s : Socket). some (tt, send (list_packets s (answers l) (listed_names l v)) v))
              (taken-socket sock (leftover rest q) w)
          ∙ ap (λ names. some (tt, send (list_packets sock (answers l) names) v))
              (listed-taken l sock (leftover rest q) w),
      refl,
      round_lines-list_packets sock (answers l) (listed_names l w) [] [] (hearing sock packets a)
          (answers-IsNamesList l) h few whole,
      round-list_packets sock (answers l) (listed_names l w) [] [] (hearing sock packets a)
          (answers-IsNamesList l) h few whole,
    )
