-- ===== src/Dispatcher/Consistency/Leads.antt =====
-- Actions that lead from one predicate on worlds to another.
use networking_programming_p.Base.{
  ◌≡◌, refl, sym, ◌∙◌, subst, Option, none, some, inl, inr, Option-cases,
}
use networking_programming_p.Dispatcher.State.{Pointer, User, World}
use networking_programming_p.Dispatcher.Monad.{M, ◌>>=◌, on_option, modify, load_user}
use networking_programming_p.Dispatcher.Steps.{>>=_step, >>=_fault}
use networking_programming_p.Dispatcher.Keeps.{Keeps, some-state}

-- `m` leads from `P` to `Q` whenever it does not fault.
pub record Leads {A : Type 0} (P Q : World → Type 0) (m : M A) : Type 0 where
  pub at : (w v : World) (a : A) → m w ≡ some (a, v) → P w → Q v

module _ {P Q : World → Type 0} where
  pub Leads-bind :
      {A B : Type 0} (m : M A) (f : A → M B)
      → Keeps P m
      → ((a : A) → Leads P Q (f a))
      → Leads P Q (m >>= f)
  Leads-bind m f km kf = record {
    at = λ w v b h p. elim (Option-cases (m w)) [
      | inl e ↦ cc (>>=_fault m f e)
      | inr ((a, u), e) ↦ (kf a).at u v b (sym (>>=_step m f e) ∙ h) (km.at w u a e p)
    ];
  }

  pub Leads-load_user :
      {B : Type 0} (p : Pointer) (f : User → M B)
      → ((u : User) → Leads (λ w. P w × (w.users p ≡ u)) Q (f u))
      → Leads P Q (load_user p >>= f)
  unfolding load_user
  Leads-load_user p f k = record {
    at = λ w v a h c. (k (w.users p)).at w v a (sym (>>=_step (load_user p) f refl) ∙ h) (c, refl);
  }

  pub Leads-modify : (f : World → World) → ((w : World) → P w → Q (f w)) → Leads P Q (modify f)
  unfolding modify
  Leads-modify f k = record { at = λ w v a h c. subst Q (some-state h) (k w c) }

  pub Leads-on_option :
      {A B : Type 0} (n : M A) (f : B → M A) (o : Option B)
      → Leads P Q n
      → ((b : B) → Leads P Q (f b))
      → Leads P Q (on_option o n f)
  unfolding on_option
  Leads-on_option n f none kn kf = record { at = kn.at }
  Leads-on_option n f (some b) kn kf = record { at = (kf b).at }

  pub Leads-weaken :
      {A : Type 0} {R : World → Type 0} (m : M A)
      → ((w : World) → P w → R w)
      → Leads R Q m
      → Leads P Q m
  Leads-weaken m k l = record { at = λ w v a h c. l.at w v a h (k w c) }
