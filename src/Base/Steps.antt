-- ===== src/Base/Steps.antt =====
-- Straight-line driver code: steps that return a status with the state, put one after the other up
-- to the first that fails; and rules for what holds when such a sequence ends.
use mathlib.Core.List.{List, [], ◌∷◌, Memᴰ}
use mathlib.Core.Path.{◌≡◌, refl}
use mathlib.Core.Bool.{Bool, true, false}
use yoga_slim7x_usb.Base.Tests.{if◌then◌else◌}
use yoga_slim7x_usb.Base.Errors.{Status, ok, err, positive, proceed, Errno}

-- A call that returns an `int` and changes the state.
abbrev pub Step : Type 0 → Type 0
Step S = S → Status × S

module _ {S : Type 0} where
  -- `ret = f(); if (ret) return ret; return g();`
  infixl 5 ◌>>>◌
  unfoldable pub ◌>>>◌ : Step S → Step S → Step S
  (f >>> g) s = proceed (f s) g

  -- A call that cannot fail.
  abbrev pub act : (S → S) → Step S
  act f s = (ok, f s)

  -- `return e;`
  abbrev pub return : Status → Step S
  return ret s = (ret, s)

  -- `if (!test) return ret;`
  unfoldable pub demand : Bool → Status → Step S
  demand b ret s = (if b then ok else ret, s)

  -- The loop over a table.
  unfoldable pub each : {A : Type 0} → (A → Step S) → List A → Step S
  each f [] s = (ok, s)
  each f (a ∷ rest) s = proceed (f a s) (each f rest)

  -- A call on one part of a state, and a change of the other part.
  unfoldable pub on_rest : {P : Type 0} → Step S → Step (P × S)
  on_rest f (p, s) = let (ret, t) = f s in (ret, (p, t))

  unfoldable pub on_own : {P : Type 0} → (P → P) → Step (P × S)
  on_own f (p, s) = (ok, (f p, s))

  -- What holds when a call has ended: one predicate after 0, another after an error.
  abbrev pub Ended : (S → Type 0) → (S → Type 0) → Status × S → Type 0
  Ended Q R (ok, t) = Q t
  Ended Q R (err e, t) = R t
  Ended Q R (positive n, t) = R t

  -- From a state in `P`, the step ends in `Q` after 0 and in `R` after an error.
  abbrev pub Runs : (P : S → Type 0) → Step S → (Q R : S → Type 0) → Type 0
  Runs P f Q R = (s : S) → P s → Ended Q R (f s)

  proceed-Ended :
      (Q Q' R : S → Type 0) (r : Status × S) (g : Step S)
      → Ended Q R r
      → Runs Q g Q' R
      → Ended Q' R (proceed r g)
  proceed-Ended Q Q' R (ok, t) g h k = k t h
  proceed-Ended Q Q' R (err e, t) g h k = h
  proceed-Ended Q Q' R (positive n, t) g h k = h

  -- Two steps one after the other, with what holds between them.
  pub then-Runs :
      (P Q Q' R : S → Type 0) (f g : Step S) → Runs P f Q R → Runs Q g Q' R → Runs P (f >>> g) Q' R
  unfolding ◌>>>◌
  then-Runs P Q Q' R f g h k s p = proceed-Ended Q Q' R (f s) g (h s p) k

  -- A loop over a table, with an invariant on what is left of it.
  pub each-Runs :
      {A : Type 0} (I : List A → S → Type 0) (R : S → Type 0) (f : A → Step S) (xs : List A)
      → ((x : A) (rest : List A) → Runs (I (x ∷ rest)) (f x) (I rest) R)
      → Runs (I xs) (each f xs) (I []) R
  unfolding each
  each-Runs I R f [] step s p = p
  each-Runs I R f (x ∷ rest) step s p =
      proceed-Ended (I rest) (I []) R (f x s) (each f rest) (step x rest s p)
        (each-Runs I R f rest step)

  -- Conditions may be weakened.
  pub Ended-weaken :
      (Q Q' R R' : S → Type 0) (r : Status × S)
      → ((t : S) → Q t → Q' t)
      → ((t : S) → R t → R' t)
      → Ended Q R r
      → Ended Q' R' r
  Ended-weaken Q Q' R R' (ok, t) q k h = q t h
  Ended-weaken Q Q' R R' (err e, t) q k h = k t h
  Ended-weaken Q Q' R R' (positive n, t) q k h = k t h

  pub Ended-if :
      (Q R : S → Type 0) (b : Bool) (e : Errno) (t : S)
      → (b ≡ true → Q t)
      → (b ≡ false → R t)
      → Ended Q R (if b then ok else err e, t)
  Ended-if Q R true e t h k = h refl
  Ended-if Q R false e t h k = k refl

  -- What holds of the state holds however the call has ended.
  pub always-Ended :
      (P Q R : S → Type 0) (r : Status × S)
      → P r.1
      → ((t : S) → P t → Q t)
      → ((t : S) → P t → R t)
      → Ended Q R r
  always-Ended P Q R (ok, t) h q k = q t h
  always-Ended P Q R (err e, t) h q k = k t h
  always-Ended P Q R (positive n, t) h q k = k t h

  -- A property that a step keeps, however it ends.
  abbrev pub Keeps : (S → Type 0) → Step S → Type 0
  Keeps P f = (s : S) → P s → P (f s).1

  pub proceed-Keeps :
      (P : S → Type 0) (r : Status × S) (g : Step S) → P r.1 → Keeps P g → P (proceed r g).1
  proceed-Keeps P (ok, t) g h k = k t h
  proceed-Keeps P (err e, t) g h k = h
  proceed-Keeps P (positive n, t) g h k = h

  pub then-Keeps : (P : S → Type 0) (f g : Step S) → Keeps P f → Keeps P g → Keeps P (f >>> g)
  unfolding ◌>>>◌
  then-Keeps P f g h k s p = proceed-Keeps P (f s) g (h s p) k

  pub each-Keeps :
      {A : Type 0} (P : S → Type 0) (f : A → Step S) (xs : List A)
      → ((x : A) → Memᴰ x xs → Keeps P (f x))
      → Keeps P (each f xs)
  unfolding each
  each-Keeps P f [] h s p = p
  each-Keeps P f (x ∷ xs) h s p =
      proceed-Keeps P (f x s) (each f xs) (h x (Memᴰ.head refl) s p)
        (each-Keeps P f xs (λ y m. h y (Memᴰ.tail m)))

  -- What a step keeps holds however it ends.
  pub Keeps-Runs : (P : S → Type 0) (f : Step S) → Keeps P f → Runs P f P P
  Keeps-Runs P f h s p = always-Ended P P P (f s) (h s p) (λ t q. q) (λ t q. q)

-- The same as `Runs`, from which the steps and the conditions can be read off.
pub record Leads {S : Type 0} (P : S → Type 0) (f : Step S) (Q R : S → Type 0) : Type 0 where
  pub runs : Runs P f Q R

infixl 5 ◌then_leads◌
pub ◌then_leads◌ :
    {S : Type 0} {P Q Q' R : S → Type 0} {f g : Step S}
    → Leads P f Q R
    → Leads Q g Q' R
    → Leads P (f >>> g) Q' R
◌then_leads◌ {P = P} {Q = Q} {Q' = Q'} {R = R} {f = f} {g = g} h k = record {
  runs = then-Runs P Q Q' R f g h.runs k.runs;
}

-- The same as `Keeps`, from which the step can be read off.
pub record Invariant {S : Type 0} (P : S → Type 0) (f : Step S) : Type 0 where
  pub kept : Keeps P f

infixl 5 ◌and_keeps◌
pub ◌and_keeps◌ :
    {S : Type 0} {P : S → Type 0} {f g : Step S}
    → Invariant P f
    → Invariant P g
    → Invariant P (f >>> g)
◌and_keeps◌ {P = P} {f = f} {g = g} h k = record { kept = then-Keeps P f g h.kept k.kept }
