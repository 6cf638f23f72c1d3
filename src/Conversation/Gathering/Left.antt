-- ===== src/Conversation/Gathering/Left.antt =====
-- The room and its clients after a user has left are what they are to be
-- (ServerSide/src/Dispatcher.cpp, leave_chatroom, and ClientSide/src/Client.cpp, run).
use networking_programming_p.Base.{
  ℕ, ◌≡◌, sym, ap, subst, ◌∙◌, Str, List, [], ◌∷◌, ◌++◌, some, false, ◌==◌, arith,
}
use networking_programming_p.Wire.{Arrival}
use networking_programming_p.Address.{SockAddr}
use networking_programming_p.OrderedMap.{OrderedMap, keys}
use networking_programming_p.Dispatcher.State.{Pointer, Socket, User, ChatRoom, World, update}
use networking_programming_p.Dispatcher.Members.{listed}
use networking_programming_p.Dispatcher.Consistency.Rounds.{round-Keeps}
use networking_programming_p.Dispatcher.Loop
use networking_programming_p.Dispatcher.Rooms.Join.{AreConnected}
use networking_programming_p.Dispatcher.Rooms.Leave.{left_packets}
use networking_programming_p.Client.{Client}
use networking_programming_p.Client.Delivered.{IsPrintable}
use networking_programming_p.Client.Rooms.{partners_of}
use networking_programming_p.Conversation.Gathering.{
  Gathering, CanDepart, IsGathered, IsThere, AreApart, HaveHeard, socket_of, departing,
}
use networking_programming_p.Conversation.Gathering.Splits.{All-drop, All-splits}
use networking_programming_p.Conversation.Gathering.Apart.{
  HaveSockets, AreApart-drop, AreApart-change, partners_of-change,
}
use networking_programming_p.Conversation.Gathering.Departing.{
  after_leaving, room-left, users_map-left, address-left,
}
use networking_programming_p.Conversation.Gathering.Leaves.{there, other_user, other_client}

-- To drop an entry from a list keeps a name out of it.
listed-drop :
    (k : Str) (before : OrderedMap Pointer) (e : Str × Pointer) (after : OrderedMap Pointer)
    → listed k (keys (before ++ (e ∷ after))) ≡ false
    → listed k (keys (before ++ after)) ≡ false
unfolding listed
listed-drop k [] e after h = ground arith
listed-drop k ((u, p) ∷ before) e after h = ground (arith, listed-drop k before e after)

module _ (room : Pointer) (g : Gathering) (caller : Pointer) (before after : OrderedMap Pointer)
    (inv : IsGathered room g) (can : CanDepart room g caller before after) (rest : List ℕ)
    (q : List Arrival) where
  abbrev v : World
  v = after_leaving room g caller before after inv can rest q

  abbrev me : Str × Pointer
  me = ((g.world.users caller).name, caller)

  sockets : HaveSockets g.world.users v.users (before ++ after)
  sockets = All-splits _ (before ++ after) (λ b e a split.
      ap (λ (u : User). u.socket)
        (other_user room g caller before after inv can b a e.0 e.1 split q rest))

  not_listed : listed (v.rooms room).name (keys (before ++ after)) ≡ false
  not_listed =
      ap (λ (r : ChatRoom). listed r.name (keys (before ++ after)))
        (room-left room g caller before after inv can rest q)
      ∙ listed-drop (g.world.rooms room).name before me after
          (ap (λ m. listed (g.world.rooms room).name (keys m)) (sym can.is_member) ∙ inv.not_listed)

  are_connected : AreConnected v.users_map (before ++ after)
  are_connected =
      subst (λ m. AreConnected m (before ++ after))
        (sym (users_map-left room g caller before after inv can rest q))
        (All-drop _ before me after
          (subst (AreConnected g.world.users_map) can.is_member inv.are_connected))

  IsPrintable-still : (s : Socket) → IsPrintable (g.world.address s) → IsPrintable (v.address s)
  IsPrintable-still s =
      subst (λ (address : Socket → SockAddr). IsPrintable (address s))
        (sym (address-left room g caller before after inv can rest q))

  module _ (clients : Socket → Client)
      (heard : HaveHeard g.world
        (left_packets (g.world.users caller).name g.world.users g.roster)
        (update g.clients (socket_of g caller) (departing g caller))
        clients
        g.roster) where
    still-IsThere :
        (b a : OrderedMap Pointer) (u : Str) (p : Pointer)
        → before ++ after ≡ b ++ ((u, p) ∷ a)
        → IsThere room v clients (u, p)
    still-IsThere b a u p split =
        let was = there room g caller before after inv can b a u p split in
        let same = other_user room g caller before after inv can b a u p split q rest in
        record {
          is_socket = ap (λ (x : User). x.socket == 0) same ∙ was.is_socket;
          readable = was.readable;
          printable =
              subst (λ (x : User). IsPrintable (v.address x.socket)) (sym same)
                (IsPrintable-still (socket_of g p) was.printable);
          status = ap (λ (x : User). x.connection_status) same ∙ was.status;
          room_is = ap (λ (x : User). x.connected_to_chat_room) same ∙ was.room_is;
          own_name =
              ap (λ (x : User). (clients x.socket).client_name) same
              ∙ ap (λ (c : Client). c.client_name)
                  (other_client room g caller before after inv can b a u p split clients heard)
              ∙ was.own_name;
        }

    partners :
        (b a : OrderedMap Pointer) (u : Str) (p : Pointer)
        → before ++ after ≡ b ++ ((u, p) ∷ a)
        → (clients (v.users p).socket).chatroom_partners ≡ partners_of v.users v.address (b ++ a)
    partners b a u p split =
        ap (λ (x : User). (clients x.socket).chatroom_partners)
          (other_user room g caller before after inv can b a u p split q rest)
        ∙ ap (λ (c : Client). c.chatroom_partners)
            (other_client room g caller before after inv can b a u p split clients heard)
        ∙ sym (
            partners_of-change g.world.users v.users g.world.address (b ++ a)
              (All-drop _ b (u, p) a (subst (HaveSockets g.world.users v.users) split sockets)))
        ∙ ap (λ (address : Socket → SockAddr). partners_of v.users address (b ++ a))
            (sym (address-left room g caller before after inv can rest q))

    -- The invariant after a user has left.
    pub IsGathered-left :
        Loop.round (socket_of g caller) g.world ≡ some (tt, v)
        → IsGathered room (record { world = v; clients = clients; roster = before ++ after })
    IsGathered-left ran = record {
      consistent = (round-Keeps (socket_of g caller)).at g.world v tt ran inv.consistent;
      members_are =
          ap (λ (r : ChatRoom). r.users) (room-left room g caller before after inv can rest q);
      not_listed = not_listed;
      are_connected = are_connected;
      are_apart = AreApart-change g.world.users v.users (before ++ after) sockets (
          AreApart-drop g.world.users before me after
            (subst (AreApart g.world.users) can.is_member inv.are_apart));
      are_there = All-splits _ (before ++ after) (λ b e a split. still-IsThere b a e.0 e.1 split);
      partners = partners;
    }
