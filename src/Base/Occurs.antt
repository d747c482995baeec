-- ===== src/Base/Occurs.antt =====
-- What the string methods decide, as decompositions of the text.
use mathlib.Core.Path.{◌≡◌, refl, ap, sym, ap₂, ◌∙◌}
use mathlib.Core.Logic.{◌↔◌, ◌⊎◌, inl, inr}
use mathlib.Core.Bool.{Bool, true, false, ◌||◌}
use mathlib.Core.List.{List, [], ◌∷◌, ◌++◌, append-nil, Memᴰ}
use native.Mathlib.Omega.{arith}
use dbdock.Base.Tests.{==_iff}
use dbdock.Base.Lists.{any, All}
use dbdock.Base.Strings.{
  Text, text_eq, starts_with, ends_with, includes, text_eq_iff, starts_with_append, includes_append,
}

abbrev pub Begins : Text → Text → Type 0
Begins s p = (b : Text) × (s ≡ p ++ b)

abbrev pub Ends : Text → Text → Type 0
Ends s p = (a : Text) × (s ≡ a ++ p)

abbrev pub Occurs : Text → Text → Type 0
Occurs s p = (a : Text) × (b : Text) × (s ≡ a ++ p ++ b)

pub starts_with→Begins : (s p : Text) → starts_with s p ≡ true → Begins s p
starts_with→Begins [] p h = ([], sym (append-nil p ∙ (text_eq_iff p []).0 h))
starts_with→Begins (c ∷ s) [] h = (c ∷ s, refl)
starts_with→Begins (c ∷ s) (d ∷ p) h =
    let (b, e) = starts_with→Begins s p (ground arith) in
    (b, ap₂ ◌∷◌ ((==_iff c d).0 (ground arith)) e)

pub starts_with_iff : (s p : Text) → (starts_with s p ≡ true) ↔ Begins s p
starts_with_iff s p = (starts_with→Begins s p, λ h. let (b, e) = h in rw e (starts_with_append p b))

or_split : (a b : Bool) → (a || b) ≡ true → (a ≡ true) ⊎ (b ≡ true)
or_split a b h = ground arith

pub ends_with-Ends : (s p : Text) → ends_with s p ≡ true → Ends s p
ends_with-Ends [] p h = ([], sym ((text_eq_iff p []).0 h))
ends_with-Ends (c ∷ s) p h = elim (or_split (text_eq (c ∷ s) p) (ends_with s p) h) [
  | inl e ↦ ([], (text_eq_iff (c ∷ s) p).0 e)
  | inr e ↦ let (a, q) = ends_with-Ends s p e in (c ∷ a, ap (◌∷◌ c) q)
]

ends_with_append : (a p : Text) → ends_with (a ++ p) p ≡ true
ends_with_append [] [] = refl
ends_with_append [] (c ∷ p) = ground (arith, (text_eq_iff (c ∷ p) (c ∷ p)).1 refl)
ends_with_append (c ∷ a) p = ground (arith, ends_with_append a p)

pub ends_with_iff : (s p : Text) → (ends_with s p ≡ true) ↔ Ends s p
ends_with_iff s p = (ends_with-Ends s p, λ h. let (a, e) = h in rw e (ends_with_append a p))

pub includes→Occurs : (s p : Text) → includes s p ≡ true → Occurs s p
includes→Occurs [] p h = ([], [], sym (append-nil p ∙ (text_eq_iff p []).0 h))
includes→Occurs (c ∷ s) p h = elim (or_split (starts_with (c ∷ s) p) (includes s p) h) [
  | inl e ↦ let (b, q) = starts_with→Begins (c ∷ s) p e in ([], b, q)
  | inr e ↦ let (a, b, q) = includes→Occurs s p e in (c ∷ a, b, ap (◌∷◌ c) q)
]

pub includes_iff : (s p : Text) → (includes s p ≡ true) ↔ Occurs s p
includes_iff s p = (includes→Occurs s p, λ h. let (a, b, e) = h in rw e (includes_append a p b))

-- A test that holds somewhere in a list, and the element at which it does.
pub any_iff {ℓ} :
    {A : Type ℓ} (p : A → Bool) (xs : List A)
    → (any p xs ≡ true) ↔ ((x : A) × Memᴰ x xs × (p x ≡ true))
any_iff {A} p xs = (there xs, back xs)
  where
    there : (ys : List A) → any p ys ≡ true → (x : A) × Memᴰ x ys × (p x ≡ true)
    there [] h = cc
    there (y ∷ ys) h = elim (or_split (p y) (any p ys) h) [
      | inl e ↦ (y, Memᴰ.head refl, e)
      | inr e ↦ let (x, m, q) = there ys e in (x, Memᴰ.tail m, q)
    ]

    back : (ys : List A) → ((x : A) × Memᴰ x ys × (p x ≡ true)) → any p ys ≡ true
    back [] (x, m, e) = elim m [ ]
    back (y ∷ ys) (x, Memᴰ.head q, e) = let h : p y ≡ true = rw (← q) e in ground arith
    back (y ∷ ys) (x, Memᴰ.tail m, e) = let h : any p ys ≡ true = back ys (x, m, e) in ground arith

pub any-false_iff {ℓ} :
    {A : Type ℓ} (p : A → Bool) (xs : List A) → (any p xs ≡ false) ↔ All (λ x. p x ≡ false) xs
any-false_iff p [] = ((λ _. tt), (λ _. refl))
any-false_iff p (x ∷ xs) = ground (arith, any-false_iff p xs)
