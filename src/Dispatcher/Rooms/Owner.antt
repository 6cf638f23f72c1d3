-- ===== src/Dispatcher/Rooms/Owner.antt =====
-- The loop of create_chatroom that looks for the owner's name (ServerSide/src/Dispatcher.cpp).
use networking_programming_p.Base.{
  ◌≡◌, ap, subst, ◌∙◌, [], ◌∷◌, Option, some, Bool, true, ◌==◌, Bool-cases, inl, inr, ◌⊎◌,
  if◌then◌else◌,
}
use networking_programming_p.OrderedMap.{OrderedMap}
use networking_programming_p.Dispatcher.State.{Pointer, Socket, User}
use networking_programming_p.Dispatcher.Caller.{scan_users}
use networking_programming_p.Dispatcher.Rooms.{owner_name}

-- The user that the loop finds is the one whose name it takes, or the one it started from.
pub owner_name_lem :
    (users : Pointer → User) (sock : Socket) (last : Option Pointer) (p : Pointer)
    (m : OrderedMap Pointer)
    → scan_users users sock last m ≡ some p
    → ((users p).socket == sock) ≡ true
    → (owner_name users sock m ≡ (users p).name) ⊎ (last ≡ some p)
unfolding owner_name scan_users
owner_name_lem users sock last p [] s h = inr s
owner_name_lem users sock last p ((n, q) ∷ m) s h = elim (Bool-cases ((users q).socket == sock)) [
  | inl e ↦
      let t : some q ≡ some p =
        subst (λ (b : Bool). (if b then some q else scan_users users sock (some q) m) ≡ some p) e
          s in
      rw e (inl (ap (λ (r : Pointer). (users r).name) (cc)))
  | inr e ↦
      let t : scan_users users sock (some q) m ≡ some p =
        subst (λ (b : Bool). (if b then some q else scan_users users sock (some q) m) ≡ some p) e
          s in
      elim (owner_name_lem users sock (some q) p m t h) [
        | inl i ↦ rw e (inl i)
        | inr i ↦
            let same : q ≡ p = cc in
            let own : ((users q).socket == sock) ≡ true =
              ap (λ (r : Pointer). (users r).socket == sock) same ∙ h in
            cc
      ]
]
