-- ===== src/Conversation/Gathering/Entered.antt =====
-- The room and its clients after a user has entered (ServerSide/src/Dispatcher.cpp, join_chatroom,
-- and ClientSide/src/Client.cpp, run).
use networking_programming_p.Base.{
  ℕ, ◌≡◌, sym, ap, subst, ◌∙◌, Str, List, [], ◌∷◌, ◌++◌, append-nil, append_assoc, some, false, All,
  ◌==◌, inl, inr,
}
use networking_programming_p.Wire.{Arrival}
use networking_programming_p.Address.{SockAddr}
use networking_programming_p.OrderedMap.{OrderedMap, find, keys}
use networking_programming_p.Dispatcher.State.{Pointer, Socket, User, ChatRoom, World, update}
use networking_programming_p.Dispatcher.Members.{listed}
use networking_programming_p.Dispatcher.Members.Laws.{listed-append}
use networking_programming_p.Dispatcher.Consistency.Rounds.{round-Keeps}
use networking_programming_p.Dispatcher.Loop
use networking_programming_p.Dispatcher.Rooms.Join.{AreConnected}
use networking_programming_p.Dispatcher.Taken.{AreNamed-find}
use networking_programming_p.Client.{Client}
use networking_programming_p.Client.Requests.{create_chat_room}
use networking_programming_p.Client.Delivered.{IsPrintable}
use networking_programming_p.Client.Rooms.{partners_of}
use networking_programming_p.Conversation.Entering.{packets}
use networking_programming_p.Conversation.Gathering.{
  Gathering, CanArrive, IsGathered, IsThere, HaveHeard, socket_of, arriving, joined_by,
}
use networking_programming_p.Conversation.Gathering.Splits.{
  snoc_cases, All-append, All-at, All-drop, All-splits,
}
use networking_programming_p.Conversation.Gathering.Apart.{
  HaveSockets, AreApart-snoc, AreApart-change, partners_of-change, partners_of-append, keys-append,
}
use networking_programming_p.Conversation.Gathering.Arriving.{
  can_enter, after_entering, caller-entered, other-entered, room-entered, users_map-entered,
  address-entered,
}
use networking_programming_p.Conversation.Gathering.Enters.{
  newcomer, newcomer-entered, member-entered, apart_of_member, partners-in_room_with,
  name-in_room_with,
}

module _ (room : Pointer) (g : Gathering) (caller : Pointer) (room_name : Str) (rest : List ℕ)
    (q : List Arrival) (inv : IsGathered room g) (can : CanArrive room g caller room_name) where
  abbrev v : World
  v = after_entering room g caller room_name rest q inv can

  abbrev name : Str
  name = (g.world.users caller).name

  old_user :
      (before after : OrderedMap Pointer) (u : Str) (p : Pointer)
      → g.roster ≡ before ++ ((u, p) ∷ after)
      → v.users p ≡ g.world.users p
  old_user before after u p split =
      let found : find u g.world.users_map ≡ some p =
        All-at _ before (u, p) after (subst (All _) split inv.are_connected) in
      other-entered room g caller room_name rest q inv can p
        (AreNamed-find (λ p. (g.world.users p).name) g.world.next_user u p g.world.users_map
          inv.consistent.users found).1
        (λ e.
          apart_of_member room g caller room_name rest q inv can before after u p split
            (ap (socket_of g) e))

  sockets : HaveSockets g.world.users v.users (joined_by g caller)
  sockets =
      All-append _ g.roster _
        (All-splits _ g.roster (λ before e after split.
          ap (λ (u : User). u.socket) (old_user before after e.0 e.1 split)))
        (ap (λ (u : User). u.socket) (caller-entered room g caller room_name rest q inv can), tt)

  IsPrintable-still : (s : Socket) → IsPrintable (g.world.address s) → IsPrintable (v.address s)
  IsPrintable-still s =
      subst (λ (address : Socket → SockAddr). IsPrintable (address s))
        (sym (address-entered room g caller room_name rest q inv can))

  not_listed : listed (v.rooms room).name (keys (joined_by g caller)) ≡ false
  not_listed =
      ap (λ (r : ChatRoom). listed r.name (keys (joined_by g caller)))
        (room-entered room g caller room_name rest q inv can)
      ∙ ap (listed (g.world.rooms room).name) (keys-append g.roster _)
      ∙ listed-append (g.world.rooms room).name name (keys g.roster) can.other_name inv.not_listed

  are_connected : AreConnected v.users_map (joined_by g caller)
  are_connected =
      subst (λ m. AreConnected m (joined_by g caller))
        (sym (users_map-entered room g caller room_name rest q inv can))
        (All-append _ g.roster _ inv.are_connected (can.named, tt))

  module _ (clients : Socket → Client)
      (heard : HaveHeard g.world
        (packets g.world
          (socket_of g caller)
          caller
          room
          room_name
          g.roster
          rest
          q
          (can_enter room g caller room_name inv can))
        (update g.clients (socket_of g caller) (arriving g caller room_name))
        clients
        (joined_by g caller)) where
    old-IsThere :
        (before after : OrderedMap Pointer) (u : Str) (p : Pointer)
        → g.roster ≡ before ++ ((u, p) ∷ after)
        → IsThere room v clients (u, p)
    old-IsThere before after u p split =
        let there : IsThere room g.world g.clients (u, p) =
          All-at _ before (u, p) after (subst (All _) split inv.are_there) in
        let same = old_user before after u p split in
        record {
          is_socket = ap (λ (x : User). x.socket == 0) same ∙ there.is_socket;
          readable = there.readable;
          printable =
              subst (λ (x : User). IsPrintable (v.address x.socket)) (sym same)
                (IsPrintable-still (socket_of g p) there.printable);
          status = ap (λ (x : User). x.connection_status) same ∙ there.status;
          room_is = ap (λ (x : User). x.connected_to_chat_room) same ∙ there.room_is;
          own_name =
              ap (λ (x : User). (clients x.socket).client_name) same
              ∙ ap (λ (c : Client). c.client_name)
                  (member-entered room g caller room_name rest q inv can clients heard before after
                    u p split)
              ∙ there.own_name;
        }

    new-IsThere : IsThere room v clients (name, caller)
    unfolding create_chat_room
    new-IsThere =
        let same = caller-entered room g caller room_name rest q inv can in
        record {
          is_socket = ap (λ (x : User). x.socket == 0) same ∙ can.connected;
          readable = can.caller_readable;
          printable =
              subst (λ (x : User). IsPrintable (v.address x.socket)) (sym same)
                (IsPrintable-still (socket_of g caller) can.caller_printable);
          status = ap (λ (x : User). x.connection_status) same;
          room_is = ap (λ (x : User). x.connected_to_chat_room) same;
          own_name =
              ap (λ (x : User). (clients x.socket).client_name) same
              ∙ ap (λ (c : Client). c.client_name)
                  (newcomer-entered room g caller room_name rest q inv can clients heard)
              ∙ name-in_room_with _ _
              ∙ can.own_name;
        }

    old_partners :
        (before m : OrderedMap Pointer) (u : Str) (p : Pointer)
        → g.roster ≡ before ++ ((u, p) ∷ m)
        → (clients (socket_of g p)).chatroom_partners
          ≡ partners_of g.world.users g.world.address (before ++ (m ++ ((name, caller) ∷ [])))
    old_partners before m u p split =
        ap (λ (c : Client). c.chatroom_partners)
          (member-entered room g caller room_name rest q inv can clients heard before m u p split)
        ∙ ap (λ ps. ps ++ (newcomer room g caller room_name rest q inv can ∷ []))
            (inv.partners before m u p split)
        ∙ sym (partners_of-append g.world.users g.world.address (before ++ m) ((name, caller) ∷ []))
        ∙ ap (partners_of g.world.users g.world.address)
            (append_assoc before m ((name, caller) ∷ []))

    new_partners :
        (clients (socket_of g caller)).chatroom_partners
        ≡ partners_of g.world.users g.world.address g.roster
    unfolding create_chat_room
    new_partners =
        ap (λ (c : Client). c.chatroom_partners)
          (newcomer-entered room g caller room_name rest q inv can clients heard)
        ∙ partners-in_room_with (partners_of g.world.users g.world.address g.roster) _
        ∙ ap (λ ps. ps ++ partners_of g.world.users g.world.address g.roster) can.no_partners

    partners :
        (before after : OrderedMap Pointer) (u : Str) (p : Pointer)
        → joined_by g caller ≡ before ++ ((u, p) ∷ after)
        → (clients (socket_of g p)).chatroom_partners
          ≡ partners_of g.world.users g.world.address (before ++ after)
    partners before after u p split =
        elim (snoc_cases g.roster before after (name, caller) (u, p) split) [
          | inl (m, e, f) ↦ rw f (old_partners before m u p e)
          | inr (e, f, h) ↦
              ap (λ (x : Str × Pointer). (clients (socket_of g x.1)).chatroom_partners) (sym f)
              ∙ new_partners
              ∙ ap (partners_of g.world.users g.world.address)
                  (sym (append-nil g.roster) ∙ ap (λ b. b ++ []) e ∙ ap (λ a. before ++ a) h)
        ]

    -- The invariant after a user has entered.
    pub IsGathered-entered :
        Loop.round (socket_of g caller) g.world ≡ some (tt, v)
        → IsGathered room (record { world = v; clients = clients; roster = joined_by g caller })
    IsGathered-entered ran = record {
      consistent = (round-Keeps (socket_of g caller)).at g.world v tt ran inv.consistent;
      members_are =
          ap (λ (r : ChatRoom). r.users) (room-entered room g caller room_name rest q inv can)
          ∙ sym (keys-append g.roster ((name, caller) ∷ []));
      not_listed = not_listed;
      are_connected = are_connected;
      are_apart =
          AreApart-change g.world.users v.users (joined_by g caller) sockets
            (AreApart-snoc g.world.users g.roster name caller inv.are_apart can.elsewhere);
      are_there =
          All-append _ g.roster ((name, caller) ∷ [])
            (All-splits _ g.roster (λ b e a split. old-IsThere b a e.0 e.1 split))
            (new-IsThere, tt);
      partners = λ before after u p split.
          let others = subst (HaveSockets g.world.users v.users) split sockets in
          ap (λ (s : Socket). (clients s).chatroom_partners) (All-at _ before (u, p) after others)
          ∙ partners before after u p split
          ∙ sym (
              partners_of-change g.world.users v.users g.world.address (before ++ after)
                (All-drop _ before (u, p) after others))
          ∙ ap (λ (address : Socket → SockAddr). partners_of v.users address (before ++ after))
              (sym (address-entered room g caller room_name rest q inv can));
    }
