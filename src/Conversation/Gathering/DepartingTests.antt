-- ===== src/Conversation/Gathering/DepartingTests.antt =====
-- ann and bob are in ann's room; bob leaves it, or ann closes it (ClientSide/src/Client.cpp and
-- ServerSide/src/Dispatcher.cpp).
use networking_programming_p.Base.{
  ◌≡◌, refl, sym, ap, ◌∙◌, Str, List, [], ◌∷◌, ◌++◌, All, none, some, arith, inl, inr, ◌==◌, str_eq,
  str_lt, if◌then◌else◌,
}
use networking_programming_p.Wire.{Arrival, chunk}
use networking_programming_p.OrderedMap.{OrderedMap, find}
use networking_programming_p.Dispatcher.State.{update, Pointer, Socket, World}
use networking_programming_p.Dispatcher.Caller.{scan_users}
use networking_programming_p.Dispatcher.Members.{listed}
use networking_programming_p.Client.{Client, Partner}
use networking_programming_p.Client.Requests.{close_session}
use networking_programming_p.Client.Rooms.{partner_of, partners_of}
use networking_programming_p.Conversation.{news, hearing}
use networking_programming_p.Conversation.Tests.{
  ann, bob, home, ann-IsReadable, bob-IsReadable, home-IsPrintable,
}
use networking_programming_p.Conversation.Gathering.{
  departing, socket_of, sent_since, Gathering, CanDepart, IsGathered, Step,
}
use networking_programming_p.Conversation.Gathering.Splits.{snoc_cases, not-nil}
use networking_programming_p.Conversation.Gathering.Notices.{IsFree, IsOut}
use networking_programming_p.Conversation.Gathering.Closing.{CanClose, round-closing}
use networking_programming_p.Client.Run.{round}
use networking_programming_p.Dispatcher.Loop
use networking_programming_p.Conversation.Gathering.Progress.{HasDeparted, Step-departing}
use networking_programming_p.Conversation.Gathering.Tests.{den, client_of, den_world, in_den}

-- Both are there, and this is what arrives.
abbrev both_hearing : (Socket → List Arrival) → Gathering
both_hearing q = record {
  world = record (den_world (ann ∷ bob ∷ []) in_den []) { inbox = q };
  clients = λ s.
      if s == 1
      then client_of ann (partner_of bob home ∷ [])
      else client_of bob (partner_of ann home ∷ []);
  roster = (ann, 0) ∷ (bob, 1) ∷ [];
}

-- What arrives when the client of a user there asks to leave.
abbrev leaving : Socket → Client → Socket → List Arrival
leaving sock c s = if s == sock then chunk (news c (close_session c) ++ []) ∷ [] else []

abbrev both_there : Gathering
both_there = both_hearing (leaving 2 (client_of bob (partner_of ann home ∷ [])))

abbrev owner_leaves : Gathering
owner_leaves = both_hearing (leaving 1 (client_of ann (partner_of bob home ∷ [])))

both_partners :
    (before after : OrderedMap Pointer) (u : Str) (p : Pointer)
    → (both_hearing (λ s. [])).roster ≡ before ++ ((u, p) ∷ after)
    → ((both_hearing (λ s. [])).clients
        ((both_hearing (λ s. [])).world.users p).socket).chatroom_partners
      ≡ partners_of
          (both_hearing (λ s. [])).world.users
          (both_hearing (λ s. [])).world.address
          (before ++ after)
both_partners before after u p e =
    elim (snoc_cases ((ann, 0) ∷ []) before after (bob, 1) (u, p) e) [
      | inl (m, f, g) ↦ elim (snoc_cases [] before m (ann, 0) (u, p) f) [
        | inl (k, i, j) ↦ absurd (not-nil before k (u, p) i tt)
        | inr (i, j, k) ↦
            ap at (sym j)
            ∙ ap list (
                ap (λ b. b ++ ((bob, 1) ∷ [])) i
                ∙ ap (λ a. before ++ a) (ap (λ a. a ++ ((bob, 1) ∷ [])) k ∙ sym g))
      ]
      | inr (f, g, h) ↦ ap at (sym g) ∙ ap list (ap (λ b. b ++ []) f ∙ ap (λ a. before ++ a) h)
    ]
  where
    at : Str × Pointer → List Partner
    at x =
        ((both_hearing (λ s. [])).clients
          ((both_hearing (λ s. [])).world.users x.1).socket).chatroom_partners

    list : OrderedMap Pointer → List Partner
    list = partners_of (both_hearing (λ s. [])).world.users (both_hearing (λ s. [])).world.address

both_hearing-IsGathered : (q : Socket → List Arrival) → IsGathered 0 (both_hearing q)
unfolding find str_eq str_lt listed
both_hearing-IsGathered q = record {
  consistent = record {
    users = ((refl, omega arith), ((refl, omega arith), tt));
    rooms = ((refl, omega arith), tt);
    users_ordered = ((refl, tt), (tt, tt));
    rooms_ordered = (tt, tt);
    sessions_ordered = tt;
  };
  members_are = refl;
  not_listed = refl;
  are_connected = (refl, (refl, tt));
  are_apart = ((refl, tt), (tt, tt));
  are_there = (
    record {
      is_socket = refl;
      readable = ann-IsReadable;
      printable = home-IsPrintable;
      status = refl;
      room_is = refl;
      own_name = refl;
    },
    (
      record {
        is_socket = refl;
        readable = bob-IsReadable;
        printable = home-IsPrintable;
        status = refl;
        room_is = refl;
        own_name = refl;
      },
      tt,
    ),
  );
  partners = both_partners;
}

bob-CanDepart : CanDepart 0 both_there 1 ((ann, 0) ∷ []) []
unfolding scan_users str_eq
bob-CanDepart = record {
  caller_is = refl;
  is_member = refl;
  not_owner = refl;
  in_session = refl;
  in_chat_room = refl;
}

Step-departing_example :
    (h : Gathering) × Step 0 both_there h × HasDeparted 0 both_there 1 ((ann, 0) ∷ []) [] h
Step-departing_example =
    Step-departing 0 both_there 1 ((ann, 0) ∷ []) [] [] []
      (both_hearing-IsGathered both_there.world.inbox) bob-CanDepart refl

ann-CanClose : CanClose 0 owner_leaves 0 [] ((bob, 1) ∷ [])
unfolding scan_users str_eq
ann-CanClose = record {
  caller_is = refl;
  is_member = refl;
  is_owner = refl;
  in_session = refl;
  in_chat_room = refl;
}

round-closing_example :
    (v : World) × (Loop.round 1 owner_leaves.world ≡ some (tt, v))
    × (find den v.chatrooms_map ≡ none)
    × All (λ (e : Str × Pointer). IsFree (v.users e.1)) owner_leaves.roster
    × All
        (λ (e : Str × Pointer).
          (c : Client) × (round (
              hearing (socket_of owner_leaves e.1) (sent_since owner_leaves.world v) (
                update owner_leaves.clients 1
                  (departing owner_leaves 0)
                  (socket_of owner_leaves e.1)))
            ≡ some c)
          × IsOut c)
        owner_leaves.roster
round-closing_example =
    round-closing 0 owner_leaves 0 [] ((bob, 1) ∷ []) [] []
      (both_hearing-IsGathered owner_leaves.world.inbox) ann-CanClose refl
