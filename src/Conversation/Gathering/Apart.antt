-- ===== src/Conversation/Gathering/Apart.antt =====
-- Members of a chat room on sockets of their own (ServerSide/src/Dispatcher.cpp).
use networking_programming_p.Base.{◌≡◌, refl, ap, ◌∙◌, Str, [], ◌∷◌, ◌++◌, All, false, arith, ◌==◌}
use networking_programming_p.Address.{SockAddr}
use networking_programming_p.OrderedMap.{OrderedMap, keys}
use networking_programming_p.Dispatcher.State.{Pointer, Socket, User}
use networking_programming_p.Client.Rooms.{partners_of}
use networking_programming_p.Conversation.Audience.{AreElsewhere}
use networking_programming_p.Conversation.Gathering.{AreApart}
use networking_programming_p.Conversation.Gathering.Splits.{All-append, All-right, All-drop}

pub elsewhere-sym : (s t : Socket) → (s == t) ≡ false → (t == s) ≡ false
elsewhere-sym s t h = ground arith

module _ (users : Pointer → User) where
  pub AreApart-before :
      (before : OrderedMap Pointer) (u : Str) (p : Pointer) (after : OrderedMap Pointer)
      → AreApart users (before ++ ((u, p) ∷ after))
      → AreElsewhere (users p).socket users before
  AreApart-before [] u p after a = tt
  AreApart-before ((n, b) ∷ before) u p after a = (
    elsewhere-sym (users p).socket (users b).socket (All-right _ before ((u, p) ∷ after) a.0).0,
    AreApart-before before u p after a.1,
  )

  pub AreApart-after :
      (before : OrderedMap Pointer) (u : Str) (p : Pointer) (after : OrderedMap Pointer)
      → AreApart users (before ++ ((u, p) ∷ after))
      → AreElsewhere (users p).socket users after
  AreApart-after [] u p after a = a.0
  AreApart-after ((n, b) ∷ before) u p after a = AreApart-after before u p after a.1

  pub AreApart-snoc :
      (members : OrderedMap Pointer) (u : Str) (p : Pointer)
      → AreApart users members
      → AreElsewhere (users p).socket users members
      → AreApart users (members ++ ((u, p) ∷ []))
  AreApart-snoc [] u p a e = (tt, tt)
  AreApart-snoc ((n, b) ∷ members) u p a e = (
    All-append _ members ((u, p) ∷ []) a.0
        (elsewhere-sym (users b).socket (users p).socket e.0, tt),
    AreApart-snoc members u p a.1 e.1,
  )

  pub AreApart-drop :
      (before : OrderedMap Pointer) (e : Str × Pointer) (after : OrderedMap Pointer)
      → AreApart users (before ++ (e ∷ after))
      → AreApart users (before ++ after)
  AreApart-drop [] e after a = a.1
  AreApart-drop (b ∷ before) e after a =
      (All-drop _ before e after a.0, AreApart-drop before e after a.1)

module _ (f g : Pointer → User) where
  -- The members have the same sockets.
  abbrev pub HaveSockets : OrderedMap Pointer → Type 0
  HaveSockets members = All (λ (e : Str × Pointer). (g e.1).socket ≡ (f e.1).socket) members

  pub AreElsewhere-change :
      (s : Socket) (members : OrderedMap Pointer)
      → HaveSockets members
      → AreElsewhere s f members
      → AreElsewhere s g members
  AreElsewhere-change s [] h a = tt
  AreElsewhere-change s (e ∷ members) h a =
      (ap (λ (t : Socket). t == s) h.0 ∙ a.0, AreElsewhere-change s members h.1 a.1)

  pub AreApart-change :
      (members : OrderedMap Pointer) → HaveSockets members → AreApart f members → AreApart g members
  AreApart-change [] h a = tt
  AreApart-change (e ∷ members) h a = (
    rw (h.0) (AreElsewhere-change (f e.1).socket members h.1 a.0),
    AreApart-change members h.1 a.1,
  )

  pub partners_of-change :
      (address : Socket → SockAddr) (members : OrderedMap Pointer)
      → HaveSockets members
      → partners_of g address members ≡ partners_of f address members
  partners_of-change address [] h = refl
  partners_of-change address ((u, p) ∷ members) h =
      rw (h.0, partners_of-change address members h.1) refl

pub partners_of-append :
    (users : Pointer → User) (address : Socket → SockAddr) (xs ys : OrderedMap Pointer)
    → partners_of users address (xs ++ ys)
      ≡ partners_of users address xs ++ partners_of users address ys
partners_of-append users address [] ys = refl
partners_of-append users address ((u, p) ∷ xs) ys = rw (partners_of-append users address xs ys) refl

pub keys-append : (xs ys : OrderedMap Pointer) → keys (xs ++ ys) ≡ keys xs ++ keys ys
keys-append [] ys = refl
keys-append ((u, p) ∷ xs) ys = rw (keys-append xs ys) refl
