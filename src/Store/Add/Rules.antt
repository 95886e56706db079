-- ===== src/Store/Add/Rules.antt =====
-- What a step on the layout ensures, in every outcome, and the rules for its parts.
use mathlib.Core.Path.{subst}
use hauler.Base.{◌≡◌, refl, Bool, true, false, Option, none, some, ◌⊎◌, inl, inr}
use hauler.Store.Add.{Layout, AddError, Run, pure, after, ◌>>=◌, expect, guard}

-- `E` holds of the layout after an error, `Q` of the result and the layout after a success.
abbrev pub Outcome :
    {A : Type 0} → (Layout → Type 0) → (A → Layout → Type 0) → AddError ⊎ A → Layout → Type 0
Outcome E Q (inl e) s = E s
Outcome E Q (inr a) s = Q a s

-- from every layout where `P` holds
pub record Ensures {A : Type 0} (E P : Layout → Type 0) (Q : A → Layout → Type 0) (m : Run A)
    : Type 0 where
  pub run : (s : Layout) → P s → Outcome E Q (m s).0 (m s).1

module _ {E : Layout → Type 0} where
  after-Outcome :
      {A B : Type 0} {Q : A → Layout → Type 0} {R : B → Layout → Type 0} (f : A → Run B)
      → ((a : A) → Ensures E (Q a) R (f a))
      → (r : AddError ⊎ A) (s : Layout) → Outcome E Q r s
      → Outcome E R (after r f s).0 (after r f s).1
  after-Outcome f k (inl e) s h = h
  after-Outcome f k (inr a) s h = (k a).run s h

  pub Ensures-bind :
      {A B : Type 0} {P : Layout → Type 0} {R : B → Layout → Type 0} (Q : A → Layout → Type 0)
      {m : Run A} {f : A → Run B}
      → Ensures E P Q m
      → ((a : A) → Ensures E (Q a) R (f a))
      → Ensures E P R (m >>= f)
  Ensures-bind Q {m = m} {f = f} h k = record {
    run = λ s p. after-Outcome f k (m s).0 (m s).1 (h.run s p);
  }

  module _ {P : Layout → Type 0} (weak : (s : Layout) → P s → E s) where
    pub Ensures-pure : {A : Type 0} (a : A) → Ensures E P (λ _. P) (pure a)
    Ensures-pure a = record { run = λ s p. p }

    pub Ensures-expect :
        {A : Type 0} (e : AddError) (o : Option A)
        → Ensures E P (λ (a : A) (s : Layout). P s × (o ≡ some a)) (expect e o)
    Ensures-expect e none = record { run = λ s p. weak s p }
    Ensures-expect e (some a) = record { run = λ s p. (p, refl) }

    pub Ensures-guard : (b : Bool) (e : AddError) → Ensures E P (λ _. P) (guard b e)
    Ensures-guard true e = record { run = λ s p. p }
    Ensures-guard false e = record { run = λ s p. weak s p }

  pub Ensures-weaker :
      {A : Type 0} {P P' : Layout → Type 0} {Q Q' : A → Layout → Type 0} {m : Run A}
      → ((s : Layout) → P' s → P s)
      → ((a : A) (s : Layout) → Q a s → Q' a s)
      → Ensures E P Q m
      → Ensures E P' Q' m
  Ensures-weaker {A = A} {Q = Q} {Q' = Q'} {m = m} before later h = record {
    run = λ s p. outcome (m s).0 (m s).1 (h.run s (before s p));
  }
    where
      outcome : (r : AddError ⊎ A) (s : Layout) → Outcome E Q r s → Outcome E Q' r s
      outcome (inl e) s o = o
      outcome (inr a) s o = later a s o

  -- what is known to exist of the layout
  pub Ensures-found :
      {A B : Type 0} {X : B → Type 0} {P : B → Layout → Type 0} {Q : A → Layout → Type 0}
      {m : Run A}
      → ((b : B) → X b → Ensures E (P b) Q m)
      → Ensures E (λ s. (b : B) × X b × P b s) Q m
  Ensures-found k = record { run = λ s h. (k h.0 h.1).run s h.2 }

pub Ensures-error :
    {A : Type 0} {E E' P : Layout → Type 0} {Q : A → Layout → Type 0} {m : Run A}
    → ((s : Layout) → E s → E' s)
    → Ensures E P Q m
    → Ensures E' P Q m
Ensures-error {A = A} {E = E} {E' = E'} {Q = Q} {m = m} weaker h = record {
  run = λ s p. outcome (m s).0 (m s).1 (h.run s p);
}
  where
    outcome : (r : AddError ⊎ A) (s : Layout) → Outcome E Q r s → Outcome E' Q r s
    outcome (inl e) s o = weaker s o
    outcome (inr a) s o = o

-- two facts about the same step
pub Ensures-both :
    {A : Type 0} {E E' P P' : Layout → Type 0} {Q Q' : A → Layout → Type 0} {m : Run A}
    → Ensures E P Q m
    → Ensures E' P' Q' m
    → Ensures E (λ s. P s × P' s) (λ a s. Q a s × Q' a s) m
Ensures-both {A = A} {E = E} {E' = E'} {Q = Q} {Q' = Q'} {m = m} h k = record {
  run = λ s p. outcome (m s).0 (m s).1 (h.run s p.0) (k.run s p.1);
}
  where
    outcome :
        (r : AddError ⊎ A) (s : Layout)
        → Outcome E Q r s
        → Outcome E' Q' r s
        → Outcome E (λ a s. Q a s × Q' a s) r s
    outcome (inl e) s o o' = o
    outcome (inr a) s o o' = (o, o')

-- a success gives what is ensured
pub Ensures-result :
    {A : Type 0} {E P : Layout → Type 0} {Q : A → Layout → Type 0} {m : Run A} (s : Layout) (a : A)
    → Ensures E P Q m
    → P s
    → (m s).0 ≡ inr a
    → Q a (m s).1
Ensures-result {A = A} {E = E} {Q = Q} {m = m} s a h p ok =
    subst (λ (r : AddError ⊎ A). Outcome E Q r (m s).1) ok (h.run s p)
