-- ===== src/Conversation/Gathering/Runs.antt =====
-- A chat room through any sequence of arrivals and departures (ServerSide/src/Dispatcher.cpp and
-- ClientSide/src/Client.cpp).
use networking_programming_p.Base.{ℕ, ◌≡◌, sym, ap, subst, ◌∙◌, Str, List, ◌∷◌, ◌++◌, some}
use networking_programming_p.Wire.{Arrival, chunk}
use networking_programming_p.OrderedMap.{OrderedMap}
use networking_programming_p.Dispatcher.State.{Pointer, World, update}
use networking_programming_p.Dispatcher.Loop
use networking_programming_p.Dispatcher.Keeps.{some-state}
use networking_programming_p.Conversation.{news}
use networking_programming_p.Conversation.Entering.{asked, news-create_chat_room}
use networking_programming_p.Conversation.Entering
use networking_programming_p.Conversation.Leaving.{news-close_session}
use networking_programming_p.Conversation.Leaving
use networking_programming_p.Conversation.Gathering.{
  Gathering, IsGathered, CanArrive, CanDepart, Step, enters, leaves, Reach, here, next, HaveHeard,
  socket_of, arriving, departing, joined_by, sent_since,
}
use networking_programming_p.Conversation.Gathering.Arriving.{
  can_enter, after_entering, sent-entered,
}
use networking_programming_p.Conversation.Gathering.Entered.{IsGathered-entered}
use networking_programming_p.Conversation.Gathering.Departing.{can_leave, after_leaving, sent-left}
use networking_programming_p.Conversation.Gathering.Left.{IsGathered-left}

-- The round of the dispatcher that answers a request to enter.
pub round-arriving :
    (room : Pointer) (g : Gathering) (caller : Pointer) (room_name : Str) (rest : List ℕ)
    (q : List Arrival) (inv : IsGathered room g) (can : CanArrive room g caller room_name)
    → g.world.inbox (socket_of g caller)
      ≡ chunk (news (g.clients (socket_of g caller)) (arriving g caller room_name) ++ rest) ∷ q
    → Loop.round (socket_of g caller) g.world
      ≡ some (tt, after_entering room g caller room_name rest q inv can)
unfolding asked
round-arriving room g caller room_name rest q inv can e =
    Entering.granted g.world (socket_of g caller) caller room room_name g.roster rest q
      (can_enter room g caller room_name inv can)
      (e
        ∙ ap (λ bs. chunk bs ∷ q)
            (news-create_chat_room room_name (g.clients (socket_of g caller)) rest))

-- The one that answers a request to leave.
pub round-departing :
    (room : Pointer) (g : Gathering) (caller : Pointer) (before after : OrderedMap Pointer)
    (rest : List ℕ) (q : List Arrival) (inv : IsGathered room g)
    (can : CanDepart room g caller before after)
    → g.world.inbox (socket_of g caller)
      ≡ chunk (news (g.clients (socket_of g caller)) (departing g caller) ++ rest) ∷ q
    → Loop.round (socket_of g caller) g.world
      ≡ some (tt, after_leaving room g caller before after inv can rest q)
round-departing room g caller before after rest q inv can e =
    Leaving.granted g.world (socket_of g caller) caller room g.roster rest q
      (can_leave room g caller before after inv can)
      (e
        ∙ ap (λ bs. chunk bs ∷ q)
            (news-close_session (g.clients (socket_of g caller)) rest can.in_session
              can.in_chat_room))

pub Step-IsGathered :
    (room : Pointer) {g h : Gathering} → Step room g h → IsGathered room g → IsGathered room h
Step-IsGathered room (enters g caller room_name rest q v clients can inbox ran heard) inv =
    let to = round-arriving room g caller room_name rest q inv can inbox in
    let same : after_entering room g caller room_name rest q inv can ≡ v =
      some-state (sym to ∙ ran) in
    subst
      (λ (w : World).
        HaveHeard g.world (sent_since g.world w)
          (update g.clients (socket_of g caller) (arriving g caller room_name)) clients
          (joined_by g caller)
        → IsGathered room (record { world = w; clients = clients; roster = joined_by g caller }))
      same
      (λ told.
        IsGathered-entered room g caller room_name rest q inv can clients
          (subst
            (λ ps.
              HaveHeard g.world ps
                (update g.clients (socket_of g caller) (arriving g caller room_name)) clients
                (joined_by g caller))
            (sent-entered room g caller room_name rest q inv can) told)
          to)
      heard
Step-IsGathered room (leaves g caller before after rest q v clients can inbox ran heard) inv =
    let to = round-departing room g caller before after rest q inv can inbox in
    let same : after_leaving room g caller before after inv can rest q ≡ v =
      some-state (sym to ∙ ran) in
    subst
      (λ (w : World).
        HaveHeard g.world (sent_since g.world w)
          (update g.clients (socket_of g caller) (departing g caller)) clients g.roster
        → IsGathered room (record { world = w; clients = clients; roster = before ++ after }))
      same
      (λ told.
        IsGathered-left room g caller before after inv can rest q clients
          (subst
            (λ ps.
              HaveHeard g.world ps (update g.clients (socket_of g caller) (departing g caller))
                clients g.roster)
            (sent-left room g caller before after inv can rest q) told)
          to)
      heard

-- However many users enter and leave a room, one after the other, the list of users that the
-- dispatcher keeps for it is who came and has not left, in the order of arrival, and the client of
-- each of them has as its partners all the others, in that order and at the addresses that the
-- server sees: if this is so at the start, the users are connected on sockets of their own, and
-- each that enters is not there, has a client without partners, and a name that is not the room's.
pub Reach-IsGathered :
    (room : Pointer) (g h : Gathering) → IsGathered room g → Reach room g h → IsGathered room h
Reach-IsGathered room g h inv here = inv
Reach-IsGathered room g h inv (next r s) = Step-IsGathered room s (Reach-IsGathered room g _ inv r)
