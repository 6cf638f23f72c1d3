-- ===== src/Conversation/Gathering/Progress.antt =====
-- A request to enter or to leave a chat room is answered, and heard by all who are there
-- (ServerSide/src/Dispatcher.cpp and ClientSide/src/Client.cpp).
use networking_programming_p.Base.{
  ℕ, ◌≡◌, refl, sym, ap, subst, ◌∙◌, Str, List, [], ◌∷◌, ◌++◌, append_assoc, Option, none, some,
  All,
}
use networking_programming_p.Wire.{Arrival, chunk}
use networking_programming_p.OrderedMap.{OrderedMap, keys}
use networking_programming_p.Dispatcher.State.{Pointer, Socket, Packet, World, update}
use networking_programming_p.Dispatcher.Steps.{update_self}
use networking_programming_p.Dispatcher.Rooms.Leave.{left, left_packets}
use networking_programming_p.Client.{Client}
use networking_programming_p.Client.Requests.{create_chat_room}
use networking_programming_p.Client.Departures.{in_no_room}
use networking_programming_p.Conversation.Leaving.{outside}
use networking_programming_p.Client.Run.{round}
use networking_programming_p.Conversation.{news, hearing}
use networking_programming_p.Conversation.Gathering.{
  Gathering, IsGathered, CanArrive, CanDepart, Step, enters, leaves, HaveHeard, socket_of, arriving,
  departing, joined_by, sent_since,
}
use networking_programming_p.Conversation.Gathering.Splits.{All-at, All-append, All-map, All-splits}
use networking_programming_p.Conversation.Gathering.Arriving.{after_entering, sent-entered}
use networking_programming_p.Conversation.Gathering.Enters.{
  newcomer-round, member-round, member-entered, newcomer-entered, partners-in_room_with,
}
use networking_programming_p.Conversation.Gathering.Departing.{after_leaving, sent-left}
use networking_programming_p.Conversation.Gathering.Leaves.{other-round, own-round}
use networking_programming_p.Conversation.Gathering.Runs.{
  round-arriving, round-departing, Step-IsGathered,
}
use networking_programming_p.Conversation.Gathering.Notices.{IsFree, IsOut}
use networking_programming_p.Client.Rooms.{partner_of, partners_of}

-- The client that a round leads to, if it leads to one.
abbrev or_else : Option Client → Client → Client
or_else none c = c
or_else (some d) c = d

-- The clients after a round each.
abbrev heard : List Packet → (Socket → Client) → Socket → Client
heard packets clients s = or_else (round (hearing s packets (clients s))) (clients s)

-- The client of a user gets through the round.
abbrev Hears : World → List Packet → (Socket → Client) → Str × Pointer → Type 0
Hears w packets clients e =
    let s = (w.users e.1).socket in (c : Client) × (round (hearing s packets (clients s)) ≡ some c)

HaveHeard-heard :
    (w : World) (packets : List Packet) (clients : Socket → Client) (members : OrderedMap Pointer)
    → All (Hears w packets clients) members
    → HaveHeard w packets clients (heard packets clients) members
HaveHeard-heard w packets clients members =
    All-map (Hears w packets clients) _ members
      (λ e h. h.1 ∙ ap (λ o. some (or_else o (clients (w.users e.1).socket))) (sym h.1))

-- A user has come: the dispatcher lists it behind the others, each of them has it as one partner
-- more, at the address that the server sees, and it has all of them.
pub record HasArrived (room : Pointer) (g : Gathering) (caller : Pointer) (h : Gathering)
    : Type 0 where
  pub roster : h.roster ≡ joined_by g caller
  pub users : (h.world.rooms room).users ≡ keys (joined_by g caller)
  pub told :
      All
        (λ (e : Str × Pointer).
          (h.clients (socket_of g e.1)).chatroom_partners
          ≡ (g.clients (socket_of g e.1)).chatroom_partners
            ++ (partner_of (g.world.users caller).name (g.world.address (socket_of g caller)) ∷ []))
        g.roster
  pub partners :
      (h.clients (socket_of g caller)).chatroom_partners
      ≡ partners_of g.world.users g.world.address g.roster
  pub gathered : IsGathered room h

-- A user has gone: the dispatcher does not list it and has it in no room, its client is in no room
-- and no session, and by the invariant, each of those that are left has the others as its partners.
pub record HasDeparted (room : Pointer) (g : Gathering) (caller : Pointer)
    (before after : OrderedMap Pointer) (h : Gathering) : Type 0 where
  pub roster : h.roster ≡ before ++ after
  pub users : (h.world.rooms room).users ≡ keys (before ++ after)
  pub free : IsFree (h.world.users caller)
  pub is_out : IsOut (h.clients (socket_of g caller))
  pub gathered : IsGathered room h

-- When what the client of a user who can enter writes arrives at the dispatcher, the dispatcher
-- answers it without a fault, and in one round each with what is sent to them, everybody who is
-- there hears of the newcomer and the newcomer of them: the dispatcher lists the user behind the
-- others, their clients have it as one partner more, its client has them as its partners, at the
-- addresses that the server sees, and the room goes on with the invariant.
pub Step-arriving :
    (room : Pointer) (g : Gathering) (caller : Pointer) (room_name : Str) (rest : List ℕ)
    (q : List Arrival)
    → IsGathered room g
    → CanArrive room g caller room_name
    → g.world.inbox (socket_of g caller)
      ≡ chunk (news (g.clients (socket_of g caller)) (arriving g caller room_name) ++ rest) ∷ q
    → (h : Gathering) × Step room g h × HasArrived room g caller h
unfolding create_chat_room
Step-arriving room g caller room_name rest q inv can inbox =
    let v = after_entering room g caller room_name rest q inv can in
    let asked = update g.clients (socket_of g caller) (arriving g caller room_name) in
    let all : All (Hears g.world (sent_since g.world v) asked) (joined_by g caller) =
      rw (sent-entered room g caller room_name rest q inv can) (
        All-append _ g.roster _
          (All-splits _ g.roster (λ b e a split.
            (_, member-round room g caller room_name rest q inv can b a e.0 e.1 split)))
          ((_, newcomer-round room g caller room_name rest q inv can), tt)) in
    let clients = heard (sent_since g.world v) asked in
    let told = HaveHeard-heard g.world (sent_since g.world v) asked (joined_by g caller) all in
    let step =
      enters g caller room_name rest q v clients can inbox
        (round-arriving room g caller room_name rest q inv can inbox) told in
    let gathered = Step-IsGathered room step inv in
    let known =
      subst (λ ps. HaveHeard g.world ps asked clients (joined_by g caller))
        (sent-entered room g caller room_name rest q inv can) told in
    (
      _,
      step,
      record {
        roster = refl;
        users = gathered.members_are;
        told = All-splits _ g.roster (λ b e a split.
            ap (λ (c : Client). c.chatroom_partners)
              (member-entered room g caller room_name rest q inv can clients known b a e.0 e.1
                split));
        partners =
            ap (λ (c : Client). c.chatroom_partners)
              (newcomer-entered room g caller room_name rest q inv can clients known)
            ∙ partners-in_room_with (partners_of g.world.users g.world.address g.roster)
                (record (arriving g caller room_name) { inbox = [] })
            ∙ ap (λ ps. ps ++ partners_of g.world.users g.world.address g.roster) can.no_partners;
        gathered = gathered;
      },
    )

IsFree-left :
    (room : Pointer) (g : Gathering) (caller : Pointer) (before after : OrderedMap Pointer)
    (inv : IsGathered room g) (can : CanDepart room g caller before after) (rest : List ℕ)
    (q : List Arrival)
    → IsFree ((after_leaving room g caller before after inv can rest q).users caller)
unfolding outside left
IsFree-left room g caller before after inv can rest q =
    subst IsFree (sym (update_self _ caller _)) (refl, refl)

-- The client of the one that leaves.
IsOut-own :
    (room : Pointer) (g : Gathering) (caller : Pointer) (before after : OrderedMap Pointer)
    (inv : IsGathered room g) (can : CanDepart room g caller before after)
    (clients : Socket → Client)
    → HaveHeard g.world
        (left_packets (g.world.users caller).name g.world.users g.roster)
        (update g.clients (socket_of g caller) (departing g caller))
        clients
        g.roster
    → IsOut (clients (socket_of g caller))
IsOut-own room g caller before after inv can clients known =
    let s = socket_of g caller in
    let packets = left_packets (g.world.users caller).name g.world.users g.roster in
    let mine : round (hearing s packets (update g.clients s (departing g caller) s))
        ≡ some (clients s) =
      All-at _ before ((g.world.users caller).name, caller) after
        (subst (All _) can.is_member known) in
    let same : in_no_room (record (departing g caller) { inbox = [] }) ≡ clients s =
      cc (sym (own-round room g caller before after inv can) ∙ mine) in
    subst IsOut same (refl, refl, refl, refl)

-- When what the client of a user who can leave writes arrives at the dispatcher, the dispatcher
-- answers it without a fault, and in one round each with what is sent to them, everybody who is
-- there hears of it, the one that leaves included: the dispatcher lists those that are left, and
-- has the user in no room; their clients have each other, and not the user, as partners; its own
-- client is in no room and no session; and the room goes on with the invariant.
pub Step-departing :
    (room : Pointer) (g : Gathering) (caller : Pointer) (before after : OrderedMap Pointer)
    (rest : List ℕ) (q : List Arrival)
    → IsGathered room g
    → CanDepart room g caller before after
    → g.world.inbox (socket_of g caller)
      ≡ chunk (news (g.clients (socket_of g caller)) (departing g caller) ++ rest) ∷ q
    → (h : Gathering) × Step room g h × HasDeparted room g caller before after h
Step-departing room g caller before after rest q inv can inbox =
    let v = after_leaving room g caller before after inv can rest q in
    let asked = update g.clients (socket_of g caller) (departing g caller) in
    let all : All (Hears g.world (sent_since g.world v) asked) g.roster =
      rw (sent-left room g caller before after inv can rest q) (
        subst (All _) (sym can.is_member) (
          All-append _ before _
            (All-splits _ before (λ b e a split. (
              _,
              other-round room g caller before after inv can b (a ++ after) e.0 e.1
                  (rw split (append_assoc b (e ∷ a) after)),
            )))
            (
              (_, own-round room g caller before after inv can),
              All-splits _ after (λ b e a split. (
                _,
                other-round room g caller before after inv can (before ++ b) a e.0 e.1
                    (rw split (sym (append_assoc before b (e ∷ a)))),
              )),
            ))) in
    let clients = heard (sent_since g.world v) asked in
    let told = HaveHeard-heard g.world (sent_since g.world v) asked g.roster all in
    let step =
      leaves g caller before after rest q v clients can inbox
        (round-departing room g caller before after rest q inv can inbox) told in
    let gathered = Step-IsGathered room step inv in
    let known =
      subst (λ ps. HaveHeard g.world ps asked clients g.roster)
        (sent-left room g caller before after inv can rest q) told in
    (
      _,
      step,
      record {
        roster = refl;
        users = gathered.members_are;
        free = IsFree-left room g caller before after inv can rest q;
        is_out = IsOut-own room g caller before after inv can clients known;
        gathered = gathered;
      },
    )
