-- ===== src/Base/Triple.antt =====
-- What an action does on both paths: one condition for a return, one for a throw.
use dbdock.Base.Effect.{Effect, Result, ok, err, continue, rescue, pure, throw, try_catch, ◌>>=◌}
use dbdock.Base.{Bool, true, false, ◌≡◌, refl, if◌then◌else◌}

module _ {E S A : Type 0} where
  -- `Q` holds of a returned value and its state, `R` of the state after a throw.
  abbrev pub Outcome : (A → S → Type 0) → (S → Type 0) → Result E A × S → Type 0
  Outcome Q R (ok x, s) = Q x s
  Outcome Q R (err e, s) = R s

  pub record Triple (P : S → Type 0) (m : Effect E S A) (Q : A → S → Type 0) (R : S → Type 0)
      : Type 0 where
    pub run : (s : S) → P s → Outcome Q R (m s)

  pub Triple-pure :
      {P : S → Type 0} {Q : A → S → Type 0} {R : S → Type 0} (x : A)
      → ((s : S) → P s → Q x s)
      → Triple P (pure x) Q R
  unfolding pure
  Triple-pure x h = record { run = h }

  pub Triple-throw :
      {P : S → Type 0} {Q : A → S → Type 0} {R : S → Type 0} (e : E)
      → ((s : S) → P s → R s)
      → Triple P (throw e) Q R
  unfolding throw
  Triple-throw e h = record { run = h }

  -- A fact that the precondition carries beside the state.
  pub Triple-given :
      {F : Type 0} {P : S → Type 0} {Q : A → S → Type 0} {R : S → Type 0} {m : Effect E S A}
      → (F → Triple P m Q R)
      → Triple (λ s. P s × F) m Q R
  Triple-given h = record { run = λ s p. (h p.1).run s p.0 }

  pub Triple-if :
      {P : S → Type 0} {Q : A → S → Type 0} {R : S → Type 0} (b : Bool) {m n : Effect E S A}
      → (b ≡ true → Triple P m Q R)
      → (b ≡ false → Triple P n Q R)
      → Triple P (if b then m else n) Q R
  Triple-if true p q = p refl
  Triple-if false p q = q refl

module _ {E S A : Type 0} where
  Outcome-rescue :
      (Q : A → S → Type 0) (M R : S → Type 0) (r : Result E A × S) (f : E → Effect E S A)
      → Outcome Q M r
      → ((e : E) → Triple M (f e) Q R)
      → Outcome Q R (rescue r f)
  Outcome-rescue Q M R (ok x, s) f h k = h
  Outcome-rescue Q M R (err e, s) f h k = (k e).run s h

  -- What the body leaves when it throws, the handler starts from.
  pub Triple-try_catch :
      {P : S → Type 0} {Q : A → S → Type 0} {R : S → Type 0} (M : S → Type 0) (m : Effect E S A)
      (f : E → Effect E S A)
      → Triple P m Q M
      → ((e : E) → Triple M (f e) Q R)
      → Triple P (try_catch m f) Q R
  unfolding try_catch
  Triple-try_catch {Q} {R} M m f h k = record {
    run = λ s p. Outcome-rescue Q M R (m s) f (h.run s p) k;
  }

module _ {E S A : Type 0} where
  Outcome-mono :
      (Q Q' : A → S → Type 0) (R R' : S → Type 0) (r : Result E A × S)
      → ((x : A) (s : S) → Q x s → Q' x s)
      → ((s : S) → R s → R' s)
      → Outcome Q R r
      → Outcome Q' R' r
  Outcome-mono Q Q' R R' (ok x, s) f g h = f x s h
  Outcome-mono Q Q' R R' (err e, s) f g h = g s h

  Outcome-any : (r : Result E A × S) → Outcome (λ _ _. Unit {0}) (λ _. Unit {0}) r
  Outcome-any (ok x, s) = tt
  Outcome-any (err e, s) = tt

  -- Nothing is said of either path.
  pub Triple-any :
      {P : S → Type 0} (m : Effect E S A) → Triple P m (λ _ _. Unit {0}) (λ _. Unit {0})
  Triple-any m = record { run = λ s h. Outcome-any (m s) }

  Outcome-keep : (F : Type 0) (r : Result E A × S) → F → Outcome (λ _ _. F) (λ _. F) r
  Outcome-keep F (ok x, s) h = h
  Outcome-keep F (err e, s) h = h

  -- A fact that says nothing of the state stays true.
  pub Triple-keep : {F : Type 0} (m : Effect E S A) → Triple (λ _. F) m (λ _ _. F) (λ _. F)
  Triple-keep {F} m = record { run = λ s h. Outcome-keep F (m s) h }

  pub Triple-mono :
      {P P' : S → Type 0} {Q Q' : A → S → Type 0} {R R' : S → Type 0} {m : Effect E S A}
      → ((s : S) → P' s → P s)
      → ((x : A) (s : S) → Q x s → Q' x s)
      → ((s : S) → R s → R' s)
      → Triple P m Q R
      → Triple P' m Q' R'
  Triple-mono {Q} {Q'} {R} {R'} {m} p q r t = record {
    run = λ s h. Outcome-mono Q Q' R R' (m s) q r (t.run s (p s h));
  }

module _ {E S A B : Type 0} where
  Outcome-continue :
      (M : A → S → Type 0) (Q : B → S → Type 0) (R : S → Type 0) (r : Result E A × S)
      (f : A → Effect E S B)
      → Outcome M R r
      → ((x : A) → Triple (M x) (f x) Q R)
      → Outcome Q R (continue r f)
  Outcome-continue M Q R (ok x, s) f h k = (k x).run s h
  Outcome-continue M Q R (err e, s) f h k = h

  pub Triple-bind :
      {P : S → Type 0} {Q : B → S → Type 0} {R : S → Type 0} (M : A → S → Type 0) (m : Effect E S A)
      (f : A → Effect E S B)
      → Triple P m M R
      → ((x : A) → Triple (M x) (f x) Q R)
      → Triple P (m >>= f) Q R
  unfolding ◌>>=◌
  Triple-bind {Q} {R} M m f h k = record {
    run = λ s p. Outcome-continue M Q R (m s) f (h.run s p) k;
  }
