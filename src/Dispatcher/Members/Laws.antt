-- ===== src/Dispatcher/Members/Laws.antt =====
-- Entering and leaving the list of a room (ServerSide/src/ChatRoom.cpp).
use networking_programming_p.Base.{
  ◌≡◌, refl, ◌∙◌, ap, sym, arith, Str, List, [], ◌∷◌, ◌++◌, append_assoc, false, str_eq,
  str_eq_refl,
}
use networking_programming_p.Dispatcher.State.{ChatRoom}
use networking_programming_p.Dispatcher.Members.{listed, add_member, without, remove_member}

without-append :
    (user : Str) (us : List Str) → listed user us ≡ false → without user (us ++ (user ∷ [])) ≡ us
unfolding without listed
without-append user [] h = rw str_eq_refl
without-append user (u ∷ []) h = ground (arith, str_eq_refl user)
without-append user (u ∷ v ∷ us) h = ground (arith, without-append user (v ∷ us))

-- Of two copies at the end, one is skipped.
without-twice :
    (user : Str) (us : List Str)
    → listed user us ≡ false
    → without user (us ++ (user ∷ user ∷ [])) ≡ us ++ (user ∷ [])
unfolding without listed
without-twice user [] h = rw str_eq_refl
without-twice user (u ∷ []) h = ground (arith, str_eq_refl user)
without-twice user (u ∷ v ∷ us) h = ground (arith, without-twice user (v ∷ us))

pub listed-append :
    (name user : Str) (us : List Str)
    → str_eq user name ≡ false
    → listed name us ≡ false
    → listed name (us ++ (user ∷ [])) ≡ false
unfolding listed
listed-append name user [] n h = rw n
listed-append name user (u ∷ us) n h = ground (arith, listed-append name user us n)

without-lacking : (user : Str) (us : List Str) → listed user us ≡ false → without user us ≡ us
unfolding without listed
without-lacking user [] h = refl
without-lacking user (u ∷ []) h = ground arith
without-lacking user (u ∷ v ∷ us) h = ground (arith, without-lacking user (v ∷ us))

-- The one entry of a name goes, and the others stay in their order.
pub without-once :
    (user : Str) (us vs : List Str)
    → listed user us ≡ false
    → listed user vs ≡ false
    → without user (us ++ (user ∷ vs)) ≡ us ++ vs
unfolding without listed
without-once user [] [] h k = rw str_eq_refl
without-once user [] (v ∷ vs) h k = ground (arith, str_eq_refl user, without-lacking user vs)
without-once user (u ∷ []) vs h k = ground (arith, without-once user [] vs)
without-once user (u ∷ v ∷ us) vs h k = ground (arith, without-once user (v ∷ us) vs)

pub add_member_lem :
    (user : Str) (room : ChatRoom)
    → listed room.name room.users ≡ false
    → add_member user room ≡ record room { users = room.users ++ (user ∷ []) }
unfolding add_member
add_member_lem user room h = rw h

-- A user who is not in a room's list and enters and leaves it again leaves the room as it was, if
-- no user in the list is named like the room.
pub remove_member-add_member :
    (user : Str) (room : ChatRoom)
    → listed room.name room.users ≡ false
    → listed user room.users ≡ false
    → remove_member user (add_member user room) ≡ room
unfolding remove_member
remove_member-add_member user room h l =
    ap (remove_member user) (add_member_lem user room h)
    ∙ ap (λ (us : List Str). record room { users = us }) (without-append user room.users l)

-- A user who is not in a room's list and enters it twice is in it twice, and leaving removes one
-- of the two entries only, if neither it nor a user in the list is named like the room.
pub remove_member-add_member_twice :
    (user : Str) (room : ChatRoom)
    → str_eq user room.name ≡ false
    → listed room.name room.users ≡ false
    → listed user room.users ≡ false
    → remove_member user (add_member user (add_member user room)) ≡ add_member user room
unfolding remove_member
remove_member-add_member_twice user room n h l =
    let once : add_member user room ≡ record room { users = room.users ++ (user ∷ []) } =
      add_member_lem user room h in
    let twice : add_member user (record room { users = room.users ++ (user ∷ []) })
        ≡ record room { users = (room.users ++ (user ∷ [])) ++ (user ∷ []) } =
      add_member_lem user (record room { users = room.users ++ (user ∷ []) })
        (listed-append room.name user room.users n h) in
    ap (λ (r : ChatRoom). remove_member user (add_member user r)) once
    ∙ ap (remove_member user) twice
    ∙ ap (λ (us : List Str). record room { users = us })
        (ap (without user) (append_assoc room.users (user ∷ []) (user ∷ []))
          ∙ without-twice user room.users l)
    ∙ sym once
