-- ===== src/Conversation/Gathering/Tests.antt =====
-- bob enters the room where ann is (ClientSide/src/Client.cpp and
-- ServerSide/src/Dispatcher.cpp).
use networking_programming_p.Base.{
  ℕ, refl, sym, ap, ◌∙◌, Str, List, [], ◌∷◌, ◌++◌, some, true, codes, arith, inl, inr, ◌==◌, str_eq,
  str_lt, if◌then◌else◌,
}
use networking_programming_p.Wire.{chunk, has_nul}
use networking_programming_p.OrderedMap.{find}
use networking_programming_p.Dispatcher.State.{Pointer, User, World}
use networking_programming_p.Dispatcher.Caller.{scan_users}
use networking_programming_p.Dispatcher.Members.{listed}
use networking_programming_p.Client.{Client, Partner, new_client}
use networking_programming_p.Client.Requests.{create_chat_room}
use networking_programming_p.Client.Rooms.{partners_of}
use networking_programming_p.Conversation.{news}
use networking_programming_p.Conversation.Tests.{
  ann, bob, two_users, world, ann-IsReadable, bob-IsReadable, home-IsPrintable,
}
use networking_programming_p.Conversation.Gathering.{
  Gathering, CanArrive, IsGathered, Step, here, next,
}
use networking_programming_p.Conversation.Gathering.Splits.{snoc_cases, not-nil}
use networking_programming_p.Conversation.Gathering.Runs.{Reach-IsGathered}
use networking_programming_p.Conversation.Gathering.Progress.{HasArrived, Step-arriving}

abbrev pub den : Str
den = codes "den"

-- A client of each user, with its partners.
abbrev pub client_of : Str → List Partner → Client
client_of name ps = record new_client {
  client_name = name;
  is_in_session = true;
  is_in_chat_room = true;
  chatroom_partners = ps;
}

-- The room "den" of ann's with these members, and what arrives at the socket 2.
abbrev pub den_world : List Str → (Pointer → User) → List ℕ → World
den_world names users bytes = record (world [] ((ann, 0) ∷ (bob, 1) ∷ [])) {
  users = users;
  rooms = λ p. record { owner = ann; name = den; users = names };
  next_room = 1;
  chatrooms_map = (den, 0) ∷ [];
  inbox = λ s. if s == 2 then chunk (bytes ++ []) ∷ [] else [];
}

abbrev pub in_den : Pointer → User
in_den p = record (two_users p) { connection_status = true; connected_to_chat_room = some 0 }

-- ann is there, and bob asks to enter.
abbrev ann_there : Gathering
ann_there = record {
  world =
      den_world (ann ∷ []) (λ p. if p == 0 then in_den p else two_users p)
        (news (client_of bob []) (create_chat_room den (client_of bob [])));
  clients = λ s. if s == 1 then client_of ann [] else client_of bob [];
  roster = (ann, 0) ∷ [];
}

ann_there-IsGathered : IsGathered 0 ann_there
unfolding find str_eq str_lt listed
ann_there-IsGathered = record {
  consistent = record {
    users = ((refl, omega arith), ((refl, omega arith), tt));
    rooms = ((refl, omega arith), tt);
    users_ordered = ((refl, tt), (tt, tt));
    rooms_ordered = (tt, tt);
    sessions_ordered = tt;
  };
  members_are = refl;
  not_listed = refl;
  are_connected = (refl, tt);
  are_apart = (tt, tt);
  are_there = (
    record {
      is_socket = refl;
      readable = ann-IsReadable;
      printable = home-IsPrintable;
      status = refl;
      room_is = refl;
      own_name = refl;
    },
    tt,
  );
  partners = λ before after u p e. elim (snoc_cases [] before after (ann, 0) (u, p) e) [
    | inl (m, f, g) ↦ absurd (not-nil before m (u, p) f tt)
    | inr (f, g, h) ↦
        ap
          (λ (x : Str × Pointer).
            (ann_there.clients (ann_there.world.users x.1).socket).chatroom_partners)
          (sym g)
        ∙ ap (partners_of ann_there.world.users ann_there.world.address)
            (ap (λ b. b ++ []) f ∙ ap (λ a. before ++ a) h)
  ];
}

bob-CanArrive : CanArrive 0 ann_there 1 den
unfolding scan_users find str_eq has_nul
bob-CanArrive = record {
  connected = refl;
  caller_is = refl;
  named = refl;
  room_is = refl;
  elsewhere = (refl, tt);
  few = omega arith;
  room_readable = (omega arith, refl);
  caller_readable = bob-IsReadable;
  caller_printable = home-IsPrintable;
  other_name = refl;
  own_name = refl;
  no_partners = refl;
}

Step-arriving_example : (h : Gathering) × Step 0 ann_there h × HasArrived 0 ann_there 1 h
Step-arriving_example =
    Step-arriving 0 ann_there 1 den [] [] ann_there-IsGathered bob-CanArrive refl

-- The same once more, for what comes after it.
abbrev bob_came : (h : Gathering) × Step 0 ann_there h × HasArrived 0 ann_there 1 h
bob_came = Step-arriving 0 ann_there 1 den [] [] ann_there-IsGathered bob-CanArrive refl

Reach-IsGathered_example : IsGathered 0 bob_came.0
Reach-IsGathered_example =
    Reach-IsGathered 0 ann_there bob_came.0 ann_there-IsGathered (next here bob_came.1)
