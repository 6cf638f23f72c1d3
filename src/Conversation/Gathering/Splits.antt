-- ===== src/Conversation/Gathering/Splits.antt =====
-- Where an element of a list stands once the list has grown or shrunk by one, for the lists of who
-- is in a chat room (ServerSide/src/Dispatcher.cpp, ClientSide/src/Client.cpp).
use networking_programming_p.Base.{
  ◌≡◌, refl, sym, ap, List, [], ◌∷◌, ◌++◌, All, ◌⊎◌, inl, inr, drop, get_or, append_assoc, subst,
}

-- Of two ways to split a list at an element, either the elements are the same one, or one stands
-- before the other.
abbrev pub SplitCases {ℓ} : {A : Type ℓ} → List A → A → List A → List A → A → List A → Type ℓ
SplitCases {A} b x a b' y a' =
    ((b ≡ b') × (x ≡ y) × (a ≡ a'))
    ⊎ (((m : List A) × (b ≡ b' ++ (y ∷ m)) × (a' ≡ m ++ (x ∷ a)))
        ⊎ ((m : List A) × (a ≡ m ++ (y ∷ a')) × (b' ≡ b ++ (x ∷ m))))

module _ {ℓ} {A : Type ℓ} where
  SplitCases-cons :
      (z z' : A) (b a b' a' : List A) (x y : A)
      → z ≡ z'
      → SplitCases b x a b' y a'
      → SplitCases (z ∷ b) x a (z' ∷ b') y a'
  SplitCases-cons z z' b a b' a' x y h (inl (e, f, g)) = inl (λ i. h i ∷ e i, f, g)
  SplitCases-cons z z' b a b' a' x y h (inr (inl (m, e, f))) = inr (inl (m, λ i. h i ∷ e i, f))
  SplitCases-cons z z' b a b' a' x y h (inr (inr (m, e, f))) = inr (inr (m, e, λ i. sym h i ∷ f i))

  pub split_cases :
      (b a b' a' : List A) (x y : A) → b ++ (x ∷ a) ≡ b' ++ (y ∷ a') → SplitCases b x a b' y a'
  split_cases [] a [] a' x y e = inl (refl, ap (λ l. get_or l 0 x) e, ap (drop 1) e)
  split_cases [] a (z ∷ b') a' x y e = inr (inr (b', ap (drop 1) e, λ i. get_or (sym e i) 0 z ∷ b'))
  split_cases (z ∷ b) a [] a' x y e = inr (inl (b, λ i. get_or (e i) 0 z ∷ b, sym (ap (drop 1) e)))
  split_cases (z ∷ b) a (z' ∷ b') a' x y e =
      SplitCases-cons z z' b a b' a' x y (ap (λ l. get_or l 0 z) e)
        (split_cases b a b' a' x y (ap (drop 1) e))

  -- An element of two lists put together stands in one of them.
  pub append_cases :
      (l k b a : List A) (y : A)
      → l ++ k ≡ b ++ (y ∷ a)
      → ((m : List A) × (l ≡ b ++ (y ∷ m)) × (a ≡ m ++ k))
        ⊎ ((m : List A) × (k ≡ m ++ (y ∷ a)) × (b ≡ l ++ m))
  append_cases [] k b a y e = inr (b, e, refl)
  append_cases (x ∷ l) k [] a y e = inl (l, λ i. get_or (e i) 0 x ∷ l, sym (ap (drop 1) e))
  append_cases (x ∷ l) k (z ∷ b) a y e = elim (append_cases l k b a y (ap (drop 1) e)) [
    | inl (m, f, g) ↦ inl (m, λ i. get_or (e i) 0 x ∷ f i, g)
    | inr (m, f, g) ↦ inr (m, f, λ i. get_or (sym e i) 0 z ∷ g i)
  ]

module _ {ℓ} {A : Type ℓ} where
  pub not-nil : (m a : List A) (y : A) → [] ≡ m ++ (y ∷ a) → ¬ Unit {0}
  not-nil [] a y e = cc
  not-nil (z ∷ m) a y e = cc

  -- An element of a list that has grown by one at its end was there before, or is the new one.
  pub snoc_cases :
      (l b a : List A) (x y : A)
      → l ++ (x ∷ []) ≡ b ++ (y ∷ a)
      → ((m : List A) × (l ≡ b ++ (y ∷ m)) × (a ≡ m ++ (x ∷ []))) ⊎ ((l ≡ b) × (x ≡ y) × ([] ≡ a))
  snoc_cases l b a x y e = elim (split_cases l [] b a x y e) [
    | inl h ↦ inr h
    | inr (inl h) ↦ inl h
    | inr (inr (m, f, g)) ↦ absurd (not-nil m a y f tt)
  ]

module _ {ℓ κ} {A : Type ℓ} (P : A → Type κ) where
  pub All-append : (xs ys : List A) → All P xs → All P ys → All P (xs ++ ys)
  All-append [] ys h k = k
  All-append (x ∷ xs) ys h k = (h.0, All-append xs ys h.1 k)

  pub All-left : (xs ys : List A) → All P (xs ++ ys) → All P xs
  All-left [] ys h = tt
  All-left (x ∷ xs) ys h = (h.0, All-left xs ys h.1)

  pub All-right : (xs ys : List A) → All P (xs ++ ys) → All P ys
  All-right [] ys h = h
  All-right (x ∷ xs) ys h = All-right xs ys h.1

  pub All-at : (xs : List A) (x : A) (ys : List A) → All P (xs ++ (x ∷ ys)) → P x
  All-at xs x ys h = (All-right xs (x ∷ ys) h).0

  -- Without one of its elements.
  pub All-drop : (xs : List A) (x : A) (ys : List A) → All P (xs ++ (x ∷ ys)) → All P (xs ++ ys)
  All-drop xs x ys h = All-append xs ys (All-left xs (x ∷ ys) h) (All-right xs (x ∷ ys) h).1

-- What holds of each element that the list can be split at holds of all.
pub All-splits {ℓ κ} :
    {A : Type ℓ} (P : A → Type κ) (xs : List A)
    → ((b : List A) (x : A) (a : List A) → xs ≡ b ++ (x ∷ a) → P x)
    → All P xs
All-splits P [] f = tt
All-splits P (x ∷ xs) f =
    (f [] x xs refl, All-splits P xs (λ b y a e. f (x ∷ b) y a (ap (λ l. x ∷ l) e)))

pub All-map {ℓ κ μ} :
    {A : Type ℓ} (P : A → Type κ) (Q : A → Type μ) (xs : List A)
    → ((x : A) → P x → Q x)
    → All P xs
    → All Q xs
All-map P Q [] f h = tt
All-map P Q (x ∷ xs) f h = (f x h.0, All-map P Q xs f h.1)

-- The list `l` is split at `x`, and the rest is `hb ++ ha` once `y` is also out, when `l` without
-- `y` is `b ++ a`, and `P` holds of what stands before `y`.
pub record OtherSplit {ℓ κ} {A : Type ℓ} (P : A → Type κ) (l b a : List A) (x y : A)
    : Type (ℓ ⊔ κ) where
  pub before : List A
  pub after : List A
  pub before_it : List A
  pub after_it : List A
  pub is_split : l ≡ before ++ (x ∷ after)
  pub is_rest : before ++ after ≡ before_it ++ (y ∷ after_it)
  pub rest_without : before_it ++ after_it ≡ b ++ a
  pub all_before : All P before_it

pub other_split {ℓ κ} :
    {A : Type ℓ} (P : A → Type κ) (ds cs b a : List A) (x y : A)
    → All P ds
    → ds ++ cs ≡ b ++ (x ∷ a)
    → OtherSplit P (ds ++ (y ∷ cs)) b a x y
other_split P ds cs b a x y h e = elim (append_cases ds cs b a x e) [
  | inl (m, f, g) ↦ record {
    before = b;
    after = m ++ (y ∷ cs);
    before_it = b ++ m;
    after_it = cs;
    is_split = rw f (append_assoc b (x ∷ m) (y ∷ cs));
    is_rest = sym (append_assoc b m (y ∷ cs));
    rest_without = rw g (append_assoc b m cs);
    all_before = All-drop P b x m (subst (All P) f h);
  }
  | inr (m, f, g) ↦ record {
    before = ds ++ (y ∷ m);
    after = a;
    before_it = ds;
    after_it = m ++ a;
    is_split = rw f (sym (append_assoc ds (y ∷ m) (x ∷ a)));
    is_rest = append_assoc ds (y ∷ m) a;
    rest_without = rw g (sym (append_assoc ds m a));
    all_before = h;
  }
]
