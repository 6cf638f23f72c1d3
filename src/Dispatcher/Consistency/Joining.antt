-- ===== src/Dispatcher/Consistency/Joining.antt =====
-- The invariant through join_chatroom and create_chatroom.
use networking_programming_p.Base.{
  suc, ◌≡◌, ◌<◌, refl, sym, ◌∙◌, ap, subst, Str, none, some, arith, inl, inr, true, Option-cases,
}
use networking_programming_p.OrderedMap.{insert}
use networking_programming_p.OrderedMap.Order.{IsOrdered-insert}
use networking_programming_p.Dispatcher.State.{Pointer, Socket, User, ChatRoom, World}
use networking_programming_p.Dispatcher.Monad.{M, ◌>>=◌}
use networking_programming_p.Dispatcher.Steps.{
  >>=_step, >>=_fault, update_ne, update_self, current_user_lem, current_user_fault,
}
use networking_programming_p.Dispatcher.Members.{name-add_member}
use networking_programming_p.Dispatcher.Caller.{scan_users, current_user}
use networking_programming_p.Dispatcher.Rooms.{enter_room, create_chatroom, join_chatroom}
use networking_programming_p.Dispatcher.Rooms.Create.{
  made, created, create_chatroom_lem, create_chatroom_fault,
}
use networking_programming_p.Dispatcher.Keeps.{
  Keeps, Keeps-load_user, Keeps-read, Keeps-gets, IsStable, stable_rules, some-state,
}
use networking_programming_p.Dispatcher.Keeps.Handlers.{announce-Keeps, send_members-Keeps}
use networking_programming_p.Dispatcher.Consistency.{IsConsistent}
use networking_programming_p.Dispatcher.Consistency.Stable.{
  AreNamed-insert, AreNamed-change, scan_users-AreNamed, update_name, IsConsistent-stable,
}
use networking_programming_p.Dispatcher.Consistency.Leads.{
  Leads, Leads-bind, Leads-load_user, Leads-modify, Leads-on_option, Leads-weaken,
}

-- The maps are consistent, and the object at `p` has the name `n`.
pub record IsAt (p : Pointer) (n : Str) (w : World) : Type 0 where
  pub maps : IsConsistent w
  pub named : (w.users p).name ≡ n
  pub made : p < w.next_user

IsAt-stable : (p : Pointer) (n : Str) → IsStable (IsAt p n)
IsAt-stable p n = record {
  on_sent = λ w packets c. record {
    maps = IsConsistent-stable.on_sent w packets c.maps;
    named = c.named;
    made = c.made;
  };
  on_inbox = λ w q c. record {
    maps = IsConsistent-stable.on_inbox w q c.maps;
    named = c.named;
    made = c.made;
  };
  on_user = λ w q f k c. record {
    maps = IsConsistent-stable.on_user w q f k c.maps;
    named = update_name w q f k p ∙ c.named;
    made = c.made;
  };
  on_room = λ w q f k c. record {
    maps = IsConsistent-stable.on_room w q f k c.maps;
    named = c.named;
    made = c.made;
  };
  on_session = λ w a b c. record {
    maps = IsConsistent-stable.on_session w a b c.maps;
    named = c.named;
    made = c.made;
  };
  on_session_end = λ w a c. record {
    maps = IsConsistent-stable.on_session_end w a c.maps;
    named = c.named;
    made = c.made;
  };
  on_closed_room = λ w a c. record {
    maps = IsConsistent-stable.on_closed_room w a c.maps;
    named = c.named;
    made = c.made;
  };
  on_exit = λ w a c. record {
    maps = IsConsistent-stable.on_exit w a c.maps;
    named = c.named;
    made = c.made;
  };
}

-- users_map[n] = p for a user of that name
pub IsConsistent-insert :
    (p : Pointer) (n : Str) (w : World)
    → IsAt p n w
    → IsConsistent (record w { users_map = insert n p w.users_map })
IsConsistent-insert p n w c = record {
  users = AreNamed-insert _ _ n p w.users_map c.named c.made c.maps.users;
  rooms = c.maps.rooms;
  users_ordered = IsOrdered-insert n p w.users_map c.maps.users_ordered;
  rooms_ordered = c.maps.rooms_ordered;
  sessions_ordered = c.maps.sessions_ordered;
}

-- The maps are consistent, and `p` was allocated.
abbrev Holds : Pointer → World → Type 0
Holds p w = IsConsistent w × (p < w.next_user)

enter_room-Leads :
    (sock : Socket) (caller chatroom : Pointer)
    → Leads (Holds caller) IsConsistent (enter_room sock caller chatroom)
unfolding enter_room
enter_room-Leads sock caller chatroom = Leads-load_user caller _ λ me.
    Leads-weaken {R = IsAt caller me.name} _
      (λ w c. record { maps = c.0.0; named = ap (λ (u : User). u.name) c.1; made = c.0.1 })
      (search
        (
          Leads-bind,
          Leads-modify,
          IsConsistent-insert,
          stable_rules,
          IsAt-stable caller me.name,
          announce-Keeps,
          send_members-Keeps,
          name-add_member,
        )
        depth 16)

-- A user whom the loop over users_map finds was allocated.
Leads-current_user :
    {B : Type 0} {Q : World → Type 0} (sock : Socket) (f : Pointer → M B)
    → ((p : Pointer) → Leads (Holds p) Q (f p))
    → Leads IsConsistent Q (current_user sock >>= f)
Leads-current_user sock f k = record {
  at = λ w v a h c. elim (Option-cases (scan_users w.users sock none w.users_map)) [
    | inl e ↦ cc (>>=_fault (current_user sock) f (current_user_fault sock w e))
    | inr (p, e) ↦
        (k p).at w v a (sym (>>=_step (current_user sock) f (current_user_lem sock w p e)) ∙ h)
          (c, ground (arith, scan_users-AreNamed _ _ w.users sock none w.users_map p c.users))
  ];
}

created-IsConsistent :
    (user caller : Pointer) (name : Str) (w : World)
    → IsConsistent w
    → IsConsistent (created user caller name w)
unfolding created made
created-IsConsistent user caller name w c = record {
  users =
      AreNamed-change _ _ w.next_user w.next_user w.users_map
        (λ q _.
          update_name w caller
            (λ u. record u { connection_status = true; connected_to_chat_room = some w.next_room })
            (λ u. refl) q)
        (omega arith) c.users;
  rooms =
      AreNamed-insert _ _ name w.next_room w.chatrooms_map
        (ap (λ (r : ChatRoom). r.name) (update_self w.rooms w.next_room (made user name w)))
        (omega arith)
        (AreNamed-change _ _ w.next_room (suc w.next_room) w.chatrooms_map
          (λ q l.
            ap (λ (r : ChatRoom). r.name)
              (update_ne w.rooms w.next_room q (made user name w) (omega arith)))
          (omega arith) c.rooms);
  users_ordered = c.users_ordered;
  rooms_ordered = IsOrdered-insert name w.next_room w.chatrooms_map c.rooms_ordered;
  sessions_ordered = c.sessions_ordered;
}

create_chatroom-Keeps :
    (user : Pointer) (name : Str) → Keeps IsConsistent (create_chatroom user name)
create_chatroom-Keeps user name = record {
  at = λ w v a h c.
      elim (Option-cases (scan_users w.users (w.users user).socket (some user) w.users_map)) [
        | inl e ↦ cc (create_chatroom_fault user name w e)
        | inr (caller, e) ↦
            subst IsConsistent (some-state (sym (create_chatroom_lem user caller name w e) ∙ h))
              (created-IsConsistent user caller name w c)
      ];
}

join_chatroom-Leads : (user : Pointer) → Leads IsConsistent IsConsistent (join_chatroom user)
unfolding join_chatroom
join_chatroom-Leads user = Leads-bind _ _ (Keeps-load_user user) λ this.
    Leads-bind _ _ (Keeps-read IsConsistent-stable this.socket) λ name.
      Leads-current_user this.socket _ λ caller. Leads-bind _ _ (Keeps-gets _) λ room.
        Leads-on_option _ _ room
          (Leads-weaken _ (λ w c. c.0) (record { at = (create_chatroom-Keeps user name).at }))
          (λ chatroom. enter_room-Leads this.socket caller chatroom)

pub join_chatroom-Keeps : (user : Pointer) → Keeps IsConsistent (join_chatroom user)
join_chatroom-Keeps user = record { at = (join_chatroom-Leads user).at }
