-- ===== src/Conversation/Gathering/Enters.antt =====
-- A user enters a chat room: what the clients make of it (ClientSide/src/Client.cpp, run), and the
-- room and the clients after it.
use networking_programming_p.Base.{
  ℕ, ◌≡◌, ◌≢◌, refl, sym, ap, subst, ◌∙◌, Str, List, [], ◌∷◌, ◌++◌, append-nil, some, false, arith,
  All, ◌==◌, ==_refl,
}
use networking_programming_p.Wire.{Arrival}
use networking_programming_p.OrderedMap.{OrderedMap}
use networking_programming_p.Dispatcher.State.{Pointer, Socket, Packet, update}
use networking_programming_p.Dispatcher.Steps.{update_self, update_ne}
use networking_programming_p.Client.{Partner, Client}
use networking_programming_p.Client.Run.{round}
use networking_programming_p.Client.Rooms.{partner_of, partners_of, in_room_with}
use networking_programming_p.Conversation.{hearing}
use networking_programming_p.Conversation.Entering.{
  packets, round-hearing_room, round-hearing_newcomer,
}
use networking_programming_p.Conversation.Gathering.{
  Gathering, CanArrive, IsGathered, IsThere, AreApart, HaveHeard, socket_of, arriving, joined_by,
}
use networking_programming_p.Conversation.Gathering.Splits.{All-left, All-at, All-map}
use networking_programming_p.Conversation.Gathering.Apart.{
  AreApart-before, AreApart-after, elsewhere-sym,
}
use networking_programming_p.Conversation.Gathering.Arriving.{can_enter}

pub partners-in_room_with :
    (ps : List Partner) (c : Client)
    → (in_room_with ps c).chatroom_partners ≡ c.chatroom_partners ++ ps
partners-in_room_with [] c = sym (append-nil c.chatroom_partners)
partners-in_room_with (p ∷ ps) c = refl

pub name-in_room_with :
    (ps : List Partner) (c : Client) → (in_room_with ps c).client_name ≡ c.client_name
name-in_room_with [] c = refl
name-in_room_with (p ∷ ps) c = refl

module _ (room : Pointer) (g : Gathering) (caller : Pointer) (room_name : Str) (rest : List ℕ)
    (q : List Arrival) (inv : IsGathered room g) (can : CanArrive room g caller room_name) where
  abbrev sock : Socket
  sock = socket_of g caller

  -- What the dispatcher sends.
  abbrev sent : List Packet
  sent =
      packets g.world sock caller room room_name g.roster rest q
        (can_enter room g caller room_name inv can)

  -- The newcomer as a partner.
  abbrev pub newcomer : Partner
  newcomer = partner_of (g.world.users caller).name (g.world.address sock)

  pub apart_of_member :
      (before after : OrderedMap Pointer) (u : Str) (p : Pointer)
      → g.roster ≡ before ++ ((u, p) ∷ after)
      → sock ≢ socket_of g p
  apart_of_member before after u p split =
      let e : (socket_of g p == sock) ≡ false =
        All-at _ before (u, p) after (subst (All _) split can.elsewhere) in
      ground (arith, ==_refl sock)

  elsewhere : All (λ (e : Str × Pointer). (sock == (g.world.users e.1).socket) ≡ false) g.roster
  elsewhere = All-map _ _ g.roster (λ e h. elsewhere-sym _ _ h) can.elsewhere

  -- The clients once the request is written.
  abbrev pub asking : Socket → Client
  asking = update g.clients sock (arriving g caller room_name)

  pub newcomer-round :
      round (hearing sock sent (asking sock))
      ≡ some (
          in_room_with
            (partners_of g.world.users g.world.address g.roster)
            (record (arriving g caller room_name) { inbox = [] }))
  newcomer-round =
      ap (λ (c : Client). round (hearing sock sent c))
        (update_self g.clients sock (arriving g caller room_name))
      ∙ round-hearing_room g.world sock caller room room_name g.roster rest q
          (can_enter room g caller room_name inv can) (arriving g caller room_name)

  pub member-round :
      (before after : OrderedMap Pointer) (u : Str) (p : Pointer)
      → g.roster ≡ before ++ ((u, p) ∷ after)
      → round (hearing (socket_of g p) sent (asking (socket_of g p)))
        ≡ some (record (g.clients (socket_of g p)) {
          inbox = [];
          chatroom_partners = (g.clients (socket_of g p)).chatroom_partners ++ (newcomer ∷ []);
        })
  member-round before after u p split =
      let s = socket_of g p in
      let there : IsThere room g.world g.clients (u, p) =
        All-at _ before (u, p) after (subst (All _) split inv.are_there) in
      let apart = subst (AreApart g.world.users) split inv.are_apart in
      ap (λ (c : Client). round (hearing s sent c))
        (update_ne g.clients sock s (arriving g caller room_name)
          (apart_of_member before after u p split))
      ∙ round-hearing_newcomer g.world sock caller room room_name g.roster rest q
          (can_enter room g caller room_name inv can) before after u p (g.clients s) split
          there.is_socket (All-at _ before (u, p) after (subst (All _) split elsewhere))
          (AreApart-before g.world.users before u p after apart)
          (AreApart-after g.world.users before u p after apart)

  module _ (clients : Socket → Client)
      (heard : HaveHeard g.world sent asking clients (joined_by g caller)) where
    pub newcomer-entered :
        clients sock
        ≡ in_room_with
            (partners_of g.world.users g.world.address g.roster)
            (record (arriving g caller room_name) { inbox = [] })
    newcomer-entered =
        let mine : round (hearing sock sent (asking sock)) ≡ some (clients sock) =
          All-at _ g.roster _ [] heard in
        cc (sym mine ∙ newcomer-round)

    pub member-entered :
        (before after : OrderedMap Pointer) (u : Str) (p : Pointer)
        → g.roster ≡ before ++ ((u, p) ∷ after)
        → clients (socket_of g p) ≡ record (g.clients (socket_of g p)) {
          inbox = [];
          chatroom_partners = (g.clients (socket_of g p)).chatroom_partners ++ (newcomer ∷ []);
        }
    member-entered before after u p split =
        let s = socket_of g p in
        let theirs : round (hearing s sent (asking s)) ≡ some (clients s) =
          All-at _ before (u, p) after (subst (All _) split (All-left _ g.roster _ heard)) in
        cc (sym theirs ∙ member-round before after u p split)
