-- ===== src/Conversation/Audience.antt =====
-- Who hears what when a user enters a chat room (ServerSide/src/Dispatcher.cpp, join_chatroom).
use networking_programming_p.Base.{
  ◌≡◌, refl, sym, ap, ◌∙◌, Str, List, [], ◌∷◌, ◌++◌, append_assoc, append-nil, false, length, All,
  Bool-cases, inl, inr, ◌==◌,
}
use networking_programming_p.Address.{SockAddr, dest_ip_and_port}
use networking_programming_p.OrderedMap.{OrderedMap, keys}
use networking_programming_p.Protocol.{new_user_to_chatroom, user_has_left_chatroom, chatroom_list}
use networking_programming_p.Dispatcher.State.{Pointer, Socket, User, Packet, World}
use networking_programming_p.Dispatcher.Monad.{command_packets, msg_packets}
use networking_programming_p.Dispatcher.Rooms.Join.{
  newcomer_packets, announce_packets, members_packets, room_packets,
}
use networking_programming_p.Dispatcher.Rooms.Leave.{farewell_packets, left_packets}
use networking_programming_p.Client.Delivered.{
  delivered, delivered-command_miss, delivered-msg_miss,
}

-- None of the members has the socket.
abbrev pub AreElsewhere : Socket → (Pointer → User) → OrderedMap Pointer → Type 0
AreElsewhere sock users members =
    All (λ (e : Str × Pointer). ((users e.1).socket == sock) ≡ false) members

delivered-newcomer_miss :
    (s r : Socket) (name text : Str) (ps : List Packet)
    → (r == s) ≡ false
    → delivered s (newcomer_packets r name text ++ ps) ≡ delivered s ps
delivered-newcomer_miss s r name text ps h = elim (Bool-cases (r == 0)) [
  | inl e ↦ rw e refl
  | inr e ↦ rw e (
      rw (append_assoc, append_assoc)
        (delivered-command_miss s r new_user_to_chatroom
            (msg_packets r name ++ (msg_packets r text ++ ps)) h
          ∙ delivered-msg_miss s r name (msg_packets r text ++ ps) h
          ∙ delivered-msg_miss s r text ps h))
]

pub delivered-announce_miss :
    (s : Socket) (name text : Str) (users : Pointer → User) (members : OrderedMap Pointer)
    (ps : List Packet)
    → AreElsewhere s users members
    → delivered s (announce_packets name text users members ++ ps) ≡ delivered s ps
delivered-announce_miss s name text users [] ps a = refl
delivered-announce_miss s name text users ((u, p) ∷ members) ps a =
    ap (delivered s) (
      append_assoc (newcomer_packets (users p).socket name text)
        (announce_packets name text users members) ps)
    ∙ delivered-newcomer_miss s (users p).socket name text
        (announce_packets name text users members ++ ps) a.0
    ∙ delivered-announce_miss s name text users members ps a.1

delivered-members_miss :
    (s sock : Socket) (users : Pointer → User) (address : Socket → SockAddr)
    (members : OrderedMap Pointer)
    → (sock == s) ≡ false
    → delivered s (members_packets sock users address members) ≡ []
unfolding delivered
delivered-members_miss s sock users address [] h = refl
delivered-members_miss s sock users address ((u, p) ∷ members) h =
    let text = dest_ip_and_port (address (users p).socket) in
    let others = members_packets sock users address members in
    delivered-msg_miss s sock u (msg_packets sock text ++ others) h
    ∙ delivered-msg_miss s sock text others h
    ∙ delivered-members_miss s sock users address members h

pub delivered-room_miss :
    (s sock : Socket) (w : World) (members : OrderedMap Pointer)
    → (sock == s) ≡ false
    → delivered s (room_packets sock w members) ≡ []
delivered-room_miss s sock w members h =
    let theirs = members_packets sock w.users w.address members in
    delivered-command_miss s sock chatroom_list
      (command_packets sock (length (keys members)) ++ theirs) h
    ∙ delivered-command_miss s sock (length (keys members)) theirs h
    ∙ delivered-members_miss s sock w.users w.address members h

pub delivered-append :
    (s : Socket) (ps qs : List Packet) → delivered s (ps ++ qs) ≡ delivered s ps ++ delivered s qs
unfolding delivered
delivered-append s [] qs = refl
delivered-append s (p ∷ ps) qs = elim (Bool-cases (p.0 == s)) [
  | inl e ↦
      rw (e, delivered-append s ps qs) (sym (append_assoc p.1 (delivered s ps) (delivered s qs)))
  | inr e ↦ rw e (delivered-append s ps qs)
]

announce_packets-append :
    (name text : Str) (users : Pointer → User) (before after : OrderedMap Pointer)
    → announce_packets name text users (before ++ after)
      ≡ announce_packets name text users before ++ announce_packets name text users after
announce_packets-append name text users [] after = refl
announce_packets-append name text users ((u, p) ∷ before) after =
    rw (announce_packets-append name text users before after)
      (sym (append_assoc (newcomer_packets (users p).socket name text) _ _))

-- Of what is sent when somebody enters a room, a member whose socket no one else has gets what is
-- meant for it.
pub delivered-member :
    (name text u : Str) (w : World) (sock : Socket) (before after members : OrderedMap Pointer)
    (p : Pointer)
    → AreElsewhere (w.users p).socket w.users before
    → AreElsewhere (w.users p).socket w.users after
    → (sock == (w.users p).socket) ≡ false
    → delivered (w.users p).socket (
        announce_packets name text w.users (before ++ ((u, p) ∷ after))
        ++ room_packets sock w members)
      ≡ delivered (w.users p).socket (newcomer_packets (w.users p).socket name text) ++ []
delivered-member name text u w sock before after members p b a h =
    let s = (w.users p).socket in
    let mine = newcomer_packets s name text in
    let room = room_packets sock w members in
    let others = announce_packets name text w.users after in
    ap (λ (ps : List Packet). delivered s (ps ++ room))
      (announce_packets-append name text w.users before ((u, p) ∷ after))
    ∙ ap (delivered s)
        (append_assoc (announce_packets name text w.users before) (mine ++ others) room)
    ∙ delivered-announce_miss s name text w.users before ((mine ++ others) ++ room) b
    ∙ ap (delivered s) (append_assoc mine others room)
    ∙ delivered-append s mine (others ++ room)
    ∙ ap (λ bs. delivered s mine ++ bs)
        (delivered-announce_miss s name text w.users after room a
          ∙ delivered-room_miss s sock w members h)

delivered-farewell_miss :
    (s r : Socket) (name : Str) (ps : List Packet)
    → (r == s) ≡ false
    → delivered s (farewell_packets r name ++ ps) ≡ delivered s ps
delivered-farewell_miss s r name ps h = elim (Bool-cases (r == 0)) [
  | inl e ↦ rw e refl
  | inr e ↦ rw e (
      delivered-command_miss s r user_has_left_chatroom (msg_packets r name ++ ps) h
      ∙ delivered-msg_miss s r name ps h)
]

delivered-left_miss :
    (s : Socket) (name : Str) (users : Pointer → User) (members : OrderedMap Pointer)
    (ps : List Packet)
    → AreElsewhere s users members
    → delivered s (left_packets name users members ++ ps) ≡ delivered s ps
delivered-left_miss s name users [] ps a = refl
delivered-left_miss s name users ((u, p) ∷ members) ps a =
    ap (delivered s)
      (append_assoc (farewell_packets (users p).socket name) (left_packets name users members) ps)
    ∙ delivered-farewell_miss s (users p).socket name (left_packets name users members ++ ps) a.0
    ∙ delivered-left_miss s name users members ps a.1

left_packets-append :
    (name : Str) (users : Pointer → User) (before after : OrderedMap Pointer)
    → left_packets name users (before ++ after)
      ≡ left_packets name users before ++ left_packets name users after
left_packets-append name users [] after = refl
left_packets-append name users ((u, p) ∷ before) after =
    rw (left_packets-append name users before after)
      (sym (append_assoc (farewell_packets (users p).socket name) _ _))

-- Of what is sent when somebody leaves a room, a member whose socket no one else has gets what is
-- meant for it.
pub delivered-left_member :
    (name u : Str) (users : Pointer → User) (before after : OrderedMap Pointer) (p : Pointer)
    → AreElsewhere (users p).socket users before
    → AreElsewhere (users p).socket users after
    → delivered (users p).socket (left_packets name users (before ++ ((u, p) ∷ after)))
      ≡ delivered (users p).socket (farewell_packets (users p).socket name) ++ []
unfolding delivered
delivered-left_member name u users before after p b a =
    let s = (users p).socket in
    let mine = farewell_packets s name in
    let others = left_packets name users after in
    ap (delivered s) (left_packets-append name users before ((u, p) ∷ after))
    ∙ delivered-left_miss s name users before (mine ++ others) b
    ∙ delivered-append s mine others
    ∙ ap (λ bs. delivered s mine ++ bs)
        (ap (delivered s) (sym (append-nil others))
          ∙ delivered-left_miss s name users after [] a
          ∙ refl)
