-- ===== src/Conversation/Gathering/Leaves.antt =====
-- The room and its clients after a user has left (ServerSide/src/Dispatcher.cpp, leave_chatroom,
-- and ClientSide/src/Client.cpp, run and userHasLeftChatroom).
use networking_programming_p.Base.{
  ℕ, ◌≡◌, ◌≢◌, sym, ap, subst, ◌∙◌, Str, List, [], ◌∷◌, ◌++◌, some, true, false, arith, All, ◌==◌,
  ==_refl, str_eq, str_eq_iff, str_eq_refl, true,
}
use networking_programming_p.Wire.{Arrival, chunk}
use networking_programming_p.Address.{SockAddr}
use networking_programming_p.OrderedMap.{OrderedMap, find}
use networking_programming_p.Dispatcher.State.{Pointer, Socket, User, Packet, update}
use networking_programming_p.Dispatcher.Steps.{update_self, update_ne}
use networking_programming_p.Dispatcher.Rooms.Leave.{left_packets}
use networking_programming_p.Dispatcher.Taken.{AreNamed-find}
use networking_programming_p.Client.{Partner, Client}
use networking_programming_p.Client.Requests.{close_session}
use networking_programming_p.Client.Run.{round}
use networking_programming_p.Client.Departures.{
  in_no_room, round-farewell_packets, round-own_farewell,
}
use networking_programming_p.Client.Partners.{LacksPartner}
use networking_programming_p.Client.Rooms.{partner_of, partners_of}
use networking_programming_p.Conversation.{hearing}
use networking_programming_p.Conversation.Leaving.{IsHeardAt, heard_by}
use networking_programming_p.Conversation.Gathering.{
  Gathering, CanDepart, IsGathered, IsThere, AreApart, HaveHeard, socket_of, departing,
}
use networking_programming_p.Conversation.Gathering.Splits.{
  OtherSplit, other_split, All-append, All-at,
}
use networking_programming_p.Conversation.Gathering.Apart.{
  AreApart-before, AreApart-after, partners_of-append,
}
use networking_programming_p.Conversation.Gathering.Departing.{
  others_before, others_after, caller-IsThere, after_leaving, other-left,
}

lacks-partners_of :
    (name : Str) (users : Pointer → User) (address : Socket → SockAddr)
    (members : OrderedMap Pointer)
    → All (λ (e : Str × Pointer). str_eq e.0 name ≡ false) members
    → LacksPartner name (partners_of users address members)
lacks-partners_of name users address [] a = tt
lacks-partners_of name users address ((u, p) ∷ members) a =
    (a.0, lacks-partners_of name users address members a.1)

module _ (room : Pointer) (g : Gathering) (caller : Pointer) (before after : OrderedMap Pointer)
    (inv : IsGathered room g) (can : CanDepart room g caller before after) where
  abbrev sent : List Packet
  sent = left_packets (g.world.users caller).name g.world.users g.roster

  abbrev me : Str × Pointer
  me = ((g.world.users caller).name, caller)

  -- Where another member stands.
  abbrev Other : OrderedMap Pointer → OrderedMap Pointer → Str → Pointer → Type 0
  Other b a u p =
      OtherSplit (λ (e : Str × Pointer). str_eq e.0 me.0 ≡ false) (before ++ (me ∷ after)) b a
        (u, p) me

  other :
      (b a : OrderedMap Pointer) (u : Str) (p : Pointer)
      → before ++ after ≡ b ++ ((u, p) ∷ a)
      → Other b a u p
  other b a u p split =
      other_split _ before after b a (u, p) me (others_before room g caller before after inv can)
        split

  module _ (b a : OrderedMap Pointer) (u : Str) (p : Pointer)
      (split : before ++ after ≡ b ++ ((u, p) ∷ a)) where
    abbrev o : Other b a u p
    o = other b a u p split

    other_name : str_eq me.0 u ≡ false
    other_name =
        let others =
          All-append _ before after (others_before room g caller before after inv can)
            (others_after room g caller before after inv can) in
        let h : str_eq u me.0 ≡ false = All-at _ b (u, p) a (subst (All _) split others) in
        ground (arith, str_eq_iff u me.0, str_eq_iff me.0 u)

    other_is : g.roster ≡ o.before ++ ((u, p) ∷ o.after)
    other_is = can.is_member ∙ o.is_split

    pub there : IsThere room g.world g.clients (u, p)
    there = All-at _ o.before (u, p) o.after (subst (All _) other_is inv.are_there)

    apart : AreApart g.world.users (o.before ++ ((u, p) ∷ o.after))
    apart = subst (AreApart g.world.users) other_is inv.are_apart

    other_socket : socket_of g caller ≢ socket_of g p
    other_socket e =
        let others =
          All-append (λ (e : Str × Pointer). ((g.world.users e.1).socket == socket_of g p) ≡ false)
            o.before o.after (AreApart-before g.world.users o.before u p o.after apart)
            (AreApart-after g.world.users o.before u p o.after apart) in
        let h : (socket_of g caller == socket_of g p) ≡ false =
          All-at _ o.before_it me o.after_it (subst (All _) o.is_rest others) in
        let k : (socket_of g caller == socket_of g p) ≡ true =
          ap (λ s. s == socket_of g p) e ∙ ==_refl (socket_of g p) in
        cc

    heard_at : IsHeardAt g.world g.roster o.before (u, p) o.after
    heard_at = record {
      is_socket = there.is_socket;
      is_member = other_is;
      alone_before = AreApart-before g.world.users o.before u p o.after apart;
      alone_after = AreApart-after g.world.users o.before u p o.after apart;
    }

    pub other_user :
        (q : List Arrival) (rest : List ℕ)
        → (after_leaving room g caller before after inv can rest q).users p ≡ g.world.users p
    other_user q rest =
        let found : find u g.world.users_map ≡ some p =
          All-at _ o.before (u, p) o.after (subst (All _) other_is inv.are_connected) in
        other-left room g caller before after inv can rest q p
          (AreNamed-find (λ p. (g.world.users p).name) g.world.next_user u p g.world.users_map
            inv.consistent.users found).1
          (λ e. other_socket (ap (socket_of g) e))

    pub other-round :
        round (
          hearing
            (socket_of g p)
            sent
            (update g.clients (socket_of g caller) (departing g caller) (socket_of g p)))
        ≡ some (record (g.clients (socket_of g p)) {
          inbox = [];
          chatroom_partners = partners_of g.world.users g.world.address (b ++ a);
        })
    other-round =
        let s = socket_of g p in
        let list = partners_of g.world.users g.world.address in
        ap (λ (c : Client). round (hearing s sent c))
          (update_ne g.clients (socket_of g caller) s (departing g caller) other_socket)
        ∙ round-farewell_packets s me.0 (hearing s sent (g.clients s)) (list o.before_it)
            (list o.after_it) (partner_of me.0 (g.world.address (socket_of g caller))) [] []
            there.is_socket (caller-IsThere room g caller before after inv can).readable
            (ap (str_eq me.0) there.own_name ∙ other_name)
            (inv.partners o.before o.after u p other_is
              ∙ ap list o.is_rest
              ∙ partners_of-append g.world.users g.world.address o.before_it (me ∷ o.after_it))
            (lacks-partners_of me.0 g.world.users g.world.address o.before_it o.all_before)
            (str_eq_refl me.0)
            (ap (λ bs. chunk bs ∷ [])
              (heard_by me.0 g.world g.roster o.before u p o.after heard_at))
        ∙ ap
            (λ (ps : List Partner).
              some (record (g.clients s) { inbox = []; chatroom_partners = ps }))
            (sym (partners_of-append g.world.users g.world.address o.before_it o.after_it)
              ∙ ap list o.rest_without)

    pub other_client :
        (clients : Socket → Client)
        → HaveHeard g.world sent
            (update g.clients (socket_of g caller) (departing g caller))
            clients
            g.roster
        → clients (socket_of g p) ≡ record (g.clients (socket_of g p)) {
          inbox = [];
          chatroom_partners = partners_of g.world.users g.world.address (b ++ a);
        }
    other_client clients heard =
        let s = socket_of g p in
        let asking = update g.clients (socket_of g caller) (departing g caller) in
        let theirs : round (hearing s sent (asking s)) ≡ some (clients s) =
          All-at _ o.before (u, p) o.after (subst (All _) other_is heard) in
        cc (sym theirs ∙ other-round)

  own_name : (departing g caller).client_name ≡ me.0
  unfolding close_session
  own_name =
      rw (can.in_session, can.in_chat_room)
        (caller-IsThere room g caller before after inv can).own_name

  pub own-round :
      round (
        hearing
          (socket_of g caller)
          sent
          (update g.clients (socket_of g caller) (departing g caller) (socket_of g caller)))
      ≡ some (in_no_room (record (departing g caller) { inbox = [] }))
  own-round =
      let s = socket_of g caller in
      let there = caller-IsThere room g caller before after inv can in
      let apart = subst (AreApart g.world.users) can.is_member inv.are_apart in
      ap (λ (c : Client). round (hearing s sent c)) (update_self g.clients s (departing g caller))
      ∙ round-own_farewell s me.0 (hearing s sent (departing g caller)) [] [] there.is_socket
          there.readable (ap (str_eq me.0) own_name ∙ str_eq_refl me.0)
          (ap (λ bs. chunk bs ∷ [])
            (heard_by me.0 g.world g.roster before me.0 caller after (record {
              is_socket = there.is_socket;
              is_member = can.is_member;
              alone_before = AreApart-before g.world.users before me.0 caller after apart;
              alone_after = AreApart-after g.world.users before me.0 caller after apart;
            })))
