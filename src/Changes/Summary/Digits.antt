-- ===== src/Changes/Summary/Digits.antt =====
-- src/changes/schema-summary.ts: a number in a template stands as its decimal digits.
use Prim.Native.Nat.{◌%◌, ◌*◌}
use dbdock.Base.{
  ℕ, zero, suc, ◌+◌, ◌-◌, ◌/◌, ◌≤◌, ltb, Text, false, ◌≡◌, refl, ap, ◌∙◌, [], ◌∷◌, ◌++◌, arith,
  Bool-cases, inl, inr,
}
use dbdock.Changes.Summary.{decimal_from, decimal}

-- The number that digits stand for, behind what was read before.
pub value : ℕ → Text → ℕ
value n [] = n
value n (c ∷ t) = value (n * 10 + (c - 48)) t

value-append : (n : ℕ) (s t : Text) → value n (s ++ t) ≡ value (value n s) t
unfolding value
value-append n [] t = refl
value-append n (c ∷ s) t = value-append (n * 10 + (c - 48)) s t

ten-le : (n : ℕ) → ltb n 10 ≡ false → 10 ≤ n
ten-le n h = ground arith

value-decimal_from : (k n : ℕ) → n ≤ k → value 0 (decimal_from (suc k) n) ≡ n
unfolding value decimal_from
value-decimal_from zero n h = elim (Bool-cases (ltb n 10)) [
  | inl one ↦ rw one (omega arith)
  | inr more ↦ absurd (omega (arith, ten-le n more))
]
value-decimal_from (suc k) n h = elim (Bool-cases (ltb n 10)) [
  | inl one ↦ rw one (omega arith)
  | inr more ↦ rw more (
      value-append 0 (decimal_from (suc k) (n / 10)) ((48 + n % 10) ∷ [])
      ∙ ap (λ v. v * 10 + (48 + n % 10 - 48))
          (value-decimal_from k (n / 10) (omega (arith, ten-le n more)))
      ∙ omega arith)
]

-- The fuel of a number's digits is enough: they stand for the number.
pub value-decimal : (n : ℕ) → value 0 (decimal n) ≡ n
value-decimal n = value-decimal_from n n (omega arith)
