-- ===== src/Conversation/Gathering/Departing.antt =====
-- A user leaves the chat room of another: the dispatcher's side of it
-- (ServerSide/src/Dispatcher.cpp, leave_chatroom), field by field.
use networking_programming_p.Base.{
  ℕ, ◌<◌, ◌≡◌, ◌≢◌, refl, sym, ap, subst, ◌∙◌, Str, List, [], ◌∷◌, ◌++◌, some, true, false, arith,
  All, ◌==◌, ==_refl, drop, length, drop-append, str_eq, str_eq_iff, Bool-cases, inl, inr,
}
use networking_programming_p.Wire.{Arrival, leftover}
use networking_programming_p.OrderedMap.{OrderedMap, find, keys}
use networking_programming_p.Dispatcher.State.{Pointer, User, ChatRoom, World}
use networking_programming_p.Dispatcher.Steps.{update_self, update_ne}
use networking_programming_p.Dispatcher.Members.{listed, without, remove_member}
use networking_programming_p.Dispatcher.Members.Laws.{without-once}
use networking_programming_p.Dispatcher.Rooms.Leave.{left, left_packets}
use networking_programming_p.Dispatcher.Rooms.Join.{AreConnected}
use networking_programming_p.Dispatcher.Taken.{
  taken, rooms-taken, users_map-taken, taken-user, taken-caller,
}
use networking_programming_p.Conversation.Leaving.{CanLeave, outside, outside-sent}
use networking_programming_p.Conversation.Audience.{AreElsewhere}
use networking_programming_p.Conversation.Gathering.{
  Gathering, CanDepart, IsGathered, IsThere, AreApart, socket_of, sent_since,
}
use networking_programming_p.Conversation.Gathering.Splits.{All-at, All-left, All-right}
use networking_programming_p.Conversation.Gathering.Apart.{
  AreApart-before, AreApart-after, keys-append,
}

listed-All :
    (name : Str) (members : OrderedMap Pointer)
    → All (λ (e : Str × Pointer). str_eq e.0 name ≡ false) members
    → listed name (keys members) ≡ false
unfolding listed
listed-All name [] a = refl
listed-All name ((u, p) ∷ members) a = rw a.0 (listed-All name members a.1)

module _ (room : Pointer) (g : Gathering) (caller : Pointer) (before after : OrderedMap Pointer)
    (inv : IsGathered room g) (can : CanDepart room g caller before after) where
  abbrev pub name : Str
  name = (g.world.users caller).name

  abbrev pub was : List (Str × Pointer)
  was = before ++ ((name, caller) ∷ after)

  pub caller-IsThere : IsThere room g.world g.clients (name, caller)
  caller-IsThere = All-at _ before (name, caller) after (subst (All _) can.is_member inv.are_there)

  pub can_leave : CanLeave g.world (socket_of g caller) caller room g.roster
  can_leave = record {
    consistent = inv.consistent;
    connected = caller-IsThere.is_socket;
    caller_is = can.caller_is;
    flag = caller-IsThere.status;
    room_is = caller-IsThere.room_is;
    not_owner = can.not_owner;
    members_are = inv.members_are;
    members_connected = inv.are_connected;
    caller_readable = caller-IsThere.readable;
  }

  -- Members on other sockets have other names.
  other_name :
      (u : Str) (p : Pointer)
      → find u g.world.users_map ≡ some p
      → ((g.world.users p).socket == socket_of g caller) ≡ false
      → str_eq u name ≡ false
  other_name u p f h =
      let mine : find name g.world.users_map ≡ some caller =
        All-at _ before (name, caller) after (subst (All _) can.is_member inv.are_connected) in
      elim (Bool-cases (str_eq u name)) [
        | inl e ↦
            let same : u ≡ name = ground (arith, str_eq_iff u name) in
            let alike : p ≡ caller = cc in
            let own : (socket_of g p == socket_of g caller) ≡ true =
              ap (λ r. socket_of g r == socket_of g caller) alike ∙ ==_refl (socket_of g caller) in
            ground arith
        | inr e ↦ e
      ]

  other_names :
      (members : OrderedMap Pointer)
      → AreConnected g.world.users_map members
      → AreElsewhere (socket_of g caller) g.world.users members
      → All (λ (e : Str × Pointer). str_eq e.0 name ≡ false) members
  other_names [] c a = tt
  other_names ((u, p) ∷ members) c a = (other_name u p c.0 a.0, other_names members c.1 a.1)

  apart : AreApart g.world.users was
  apart = subst (AreApart g.world.users) can.is_member inv.are_apart

  connected : AreConnected g.world.users_map was
  connected = subst (AreConnected g.world.users_map) can.is_member inv.are_connected

  pub others_before : All (λ (e : Str × Pointer). str_eq e.0 name ≡ false) before
  others_before =
      other_names before (All-left _ before ((name, caller) ∷ after) connected)
        (AreApart-before g.world.users before name caller after apart)

  pub others_after : All (λ (e : Str × Pointer). str_eq e.0 name ≡ false) after
  others_after =
      other_names after (All-right _ before ((name, caller) ∷ after) connected).1
        (AreApart-after g.world.users before name caller after apart)

  module _ (rest : List ℕ) (q : List Arrival) where
    abbrev pub after_leaving : World
    after_leaving = outside g.world (socket_of g caller) caller room g.roster rest q can_leave

    -- The world once the command was read.
    abbrev v : World
    v = taken (socket_of g caller) (leftover rest q) g.world

    pub other-left :
        (p : Pointer) → p < g.world.next_user → caller ≢ p → after_leaving.users p ≡ g.world.users p
    unfolding outside left
    other-left p l n =
        update_ne v.users caller p _ n
        ∙ taken-user (socket_of g caller) (leftover rest q) g.world p l

    pub room-left :
        after_leaving.rooms room ≡ record (g.world.rooms room) { users = keys (before ++ after) }
    unfolding outside left remove_member
    room-left =
        update_self v.rooms room _
        ∙ ap (λ (rooms : Pointer → ChatRoom). remove_member (v.users caller).name (rooms room))
            (rooms-taken (socket_of g caller) (leftover rest q) g.world)
        ∙ ap (λ (u : User). remove_member u.name (g.world.rooms room))
            (taken-caller (socket_of g caller) (leftover rest q) g.world caller inv.consistent
              can.caller_is)
        ∙ ap (λ (us : List Str). record (g.world.rooms room) { users = us })
            (ap (without name) (
                inv.members_are
                ∙ ap keys can.is_member
                ∙ keys-append before ((name, caller) ∷ after))
              ∙ without-once name (keys before) (keys after) (listed-All name before others_before)
                  (listed-All name after others_after)
              ∙ sym (keys-append before after))

    pub users_map-left : after_leaving.users_map ≡ g.world.users_map
    unfolding outside left
    users_map-left = users_map-taken (socket_of g caller) (leftover rest q) g.world

    pub address-left : after_leaving.address ≡ g.world.address
    unfolding outside left taken
    address-left = refl

    pub sent-left : sent_since g.world after_leaving ≡ left_packets name g.world.users g.roster
    sent-left =
        ap (drop (length g.world.sent))
          (outside-sent g.world (socket_of g caller) caller room g.roster rest q can_leave)
        ∙ drop-append g.world.sent _
