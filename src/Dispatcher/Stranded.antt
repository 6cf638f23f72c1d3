-- ===== src/Dispatcher/Stranded.antt =====
-- What the exit of a room's owner leaves behind (ServerSide/src/Dispatcher.cpp, user_exit).
use networking_programming_p.Base.{
  ◌≡◌, refl, sym, ◌∙◌, ap, subst, Str, List, [], ◌∷◌, ◌++◌, none, some, Option-cases, arith, inl,
  inr, str_eq, str_eq_iff, str_eq_refl, true, false,
}
use networking_programming_p.OrderedMap.{find, erase}
use networking_programming_p.OrderedMap.Laws.{find-erase}
use networking_programming_p.Protocol.{bye_bye_msg}
use networking_programming_p.Dispatcher.State.{Pointer, Packet, World, update}
use networking_programming_p.Dispatcher.Monad.{command_packets, ◌>>=◌, ◌>>◌, modify}
use networking_programming_p.Dispatcher.Steps.{
  >>=_step, >>=_fault, send, current_user_lem, update_self,
}
use networking_programming_p.Dispatcher.Caller.{scan_users, current_user}
use networking_programming_p.Dispatcher.Members.{listed, remove_member, without}
use networking_programming_p.Dispatcher.Loop.{tell_closed, exit_room, disconnect, user_exit}
use networking_programming_p.Dispatcher.Sends.{tell_closed-SendsOnly, tell_exited-fault}

-- The user at `p` is in the room at `r`.
pub record IsIn (w : World) (p r : Pointer) : Type 0 where
  pub connected : (w.users p).connection_status ≡ true
  pub room : (w.users p).connected_to_chat_room ≡ some r

listed-without :
    (name user : Str) (us : List Str)
    → str_eq name user ≡ false
    → listed name us ≡ true
    → listed name (without user us) ≡ true
unfolding listed without
listed-without name user [] n h = cc
listed-without name user (u ∷ []) n h =
    ground (arith, str_eq_iff u user, str_eq_iff u name, str_eq_iff name user)
listed-without name user (u ∷ v ∷ us) n h = ground (
  arith,
  str_eq_iff u user,
  str_eq_iff u name,
  str_eq_iff name user,
  listed-without name user us n,
  listed-without name user (v ∷ us) n,
)

exit_room-fault :
    (w : World) (caller room : Pointer) (gone : Str)
    → str_eq (w.rooms room).owner (w.users caller).name ≡ false
    → str_eq gone (w.users caller).name ≡ false
    → listed gone (w.rooms room).users ≡ true
    → find gone w.users_map ≡ none
    → exit_room caller room w ≡ none
unfolding exit_room remove_member ◌>>=◌
exit_room-fault w caller room gone o g l f = rw o (
    tell_exited-fault (w.users caller).name gone _
      (record w {
        rooms = update w.rooms room (remove_member (w.users caller).name (w.rooms room));
      })
      (rw (update_self w.rooms room (remove_member (w.users caller).name (w.rooms room)))
        (listed-without gone (w.users caller).name (w.rooms room).users g l))
      f)

disconnect-exit_room :
    (w : World) (caller room : Pointer)
    → IsIn w caller room
    → disconnect caller w ≡ exit_room caller room w
unfolding disconnect ◌>>=◌
disconnect-exit_room w caller room i = rw (i.connected, i.room)

-- A user who is in a room with a listed user who is not connected cannot exit.
pub user_exit-fault :
    (w : World) (user caller room : Pointer) (gone : Str)
    → scan_users w.users (w.users user).socket none w.users_map ≡ some caller
    → IsIn w caller room
    → str_eq (w.rooms room).owner (w.users caller).name ≡ false
    → str_eq gone (w.users caller).name ≡ false
    → listed gone (w.rooms room).users ≡ true
    → find gone w.users_map ≡ none
    → user_exit user w ≡ none
unfolding user_exit ◌>>=◌
user_exit-fault w user caller room gone s i o g l f =
    >>=_step (current_user _) _ (current_user_lem _ w caller s)
    ∙ >>=_fault (disconnect caller) _
        (disconnect-exit_room w caller room i ∙ exit_room-fault w caller room gone o g l f)

-- The world after the owner of a room has exited, where `packets` told the room's users.
unfoldable pub owner_gone : Pointer → Pointer → List Packet → World → World
owner_gone owner room packets w = record w {
  chatrooms_map = erase (w.rooms room).name w.chatrooms_map;
  users_map = erase (w.users owner).name w.users_map;
  sent = (w.sent ++ packets) ++ command_packets (w.users owner).socket bye_bye_msg;
}

module _ (w : World) (user owner room : Pointer)
    (s : scan_users w.users (w.users user).socket none w.users_map ≡ some owner)
    (i : IsIn w owner room) (o : (w.rooms room).owner ≡ (w.users owner).name) where
  exit_room_owner :
      exit_room owner room w
      ≡ (tell_closed (w.rooms room).users
            >> modify (λ v. record v { chatrooms_map = erase (w.rooms room).name v.chatrooms_map }))
          w
  unfolding exit_room ◌>>=◌
  exit_room_owner = rw ((str_eq_iff (w.rooms room).owner (w.users owner).name).1 o)

  user_exit_owner :
      (packets : List Packet)
      → tell_closed (w.rooms room).users w ≡ some (tt, send packets w)
      → user_exit user w ≡ some (tt, owner_gone owner room packets w)
  unfolding user_exit owner_gone ◌>>=◌
  user_exit_owner packets e =
      >>=_step (current_user _) _ (current_user_lem _ w owner s)
      ∙ >>=_step (disconnect owner) _ (
          disconnect-exit_room w owner room i
          ∙ exit_room_owner
          ∙ >>=_step (tell_closed (w.rooms room).users) _ e)

  user_exit_owner_fault : tell_closed (w.rooms room).users w ≡ none → user_exit user w ≡ none
  unfolding user_exit ◌>>=◌
  user_exit_owner_fault e =
      >>=_step (current_user _) _ (current_user_lem _ w owner s)
      ∙ >>=_fault (disconnect owner) _ (
          disconnect-exit_room w owner room i
          ∙ exit_room_owner
          ∙ >>=_fault (tell_closed (w.rooms room).users) _ e)

  -- If the owner's exit does not fault, it leads to such a world.
  pub exit_owner :
      (v : World)
      → user_exit user w ≡ some (tt, v)
      → (packets : List Packet) × (v ≡ owner_gone owner room packets w)
  exit_owner v h = elim (Option-cases (tell_closed (w.rooms room).users w)) [
    | inl e ↦ absurd (cc (user_exit_owner_fault e))
    | inr ((a, u), e) ↦
        let told : (packets : List Packet) × (u ≡ send packets w) =
          (tell_closed-SendsOnly (w.rooms room).users).at w u a e in
        (told.0, cc (user_exit_owner told.0 (e ∙ ap (λ (x : World). some (tt, x)) told.1)))
  ]

stuck_after :
    (w : World) (owner room other member : Pointer) (packets : List Packet)
    → IsIn w member room
    → (w.rooms room).owner ≡ (w.users owner).name
    → listed (w.users owner).name (w.rooms room).users ≡ true
    → str_eq (w.users owner).name (w.users member).name ≡ false
    → (let v = owner_gone owner room packets w in
        scan_users v.users (v.users other).socket none v.users_map ≡ some member)
    → user_exit other (owner_gone owner room packets w) ≡ none
unfolding owner_gone
stuck_after w owner room other member packets j o l n t =
    user_exit-fault (owner_gone owner room packets w) other member room (w.users owner).name t
      (record { connected = j.connected; room = j.room }) (rw o n) n l
      (rw find-erase (rw str_eq_refl refl))

-- When the owner of a room, listed in it, has exited, and then another user exits who is in the
-- room by its own fields and has another name, user_exit faults: it dereferences the NULL that
-- users_map gives for the owner.
pub user_exit-user_exit_owner :
    (w v : World) (user owner room other member : Pointer)
    → scan_users w.users (w.users user).socket none w.users_map ≡ some owner
    → IsIn w owner room
    → (w.rooms room).owner ≡ (w.users owner).name
    → listed (w.users owner).name (w.rooms room).users ≡ true
    → user_exit user w ≡ some (tt, v)
    → scan_users v.users (v.users other).socket none v.users_map ≡ some member
    → IsIn w member room
    → str_eq (w.users owner).name (w.users member).name ≡ false
    → user_exit other v ≡ none
user_exit-user_exit_owner w v user owner room other member s i o l h t j n =
    let (packets, e) = exit_owner w user owner room s i o v h in
    subst (λ x. user_exit other x ≡ none) (sym e)
      (stuck_after w owner room other member packets j o l n
        (subst (λ x. scan_users x.users (x.users other).socket none x.users_map ≡ some member) e t))
