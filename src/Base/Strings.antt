-- ===== src/Base/Strings.antt =====
-- Texts that the program walks: lists of UTF-16 code units, with the string methods that it calls.
use Prim.Native.Nat.{ℕ}
use Prim.Native.Char.{code}
use Prim.Native.String.{String}
use mathlib.Core.Path.{◌≡◌, refl}
use mathlib.Core.Logic.{◌↔◌}
use mathlib.Core.Bool.{Bool, true, false, ◌&&◌, ◌||◌}
use mathlib.Core.List.{List, [], ◌∷◌, ◌++◌, reverse}
use native.Mathlib.Omega.{arith}
use dbdock.Base.Tests.{◌==◌, leb, if◌then◌else◌, ==_iff}

abbrev pub Text : Type 0
Text = List ℕ

-- The code units of an ASCII literal.
abbrev pub codes : String → Text
codes String.[] = []
codes (String.◌∷◌ c s) = code c ∷ codes s

-- `a === b`
abbrev pub text_eq : Text → Text → Bool
text_eq [] [] = true
text_eq [] (_ ∷ _) = false
text_eq (_ ∷ _) [] = false
text_eq (a ∷ s) (b ∷ t) = a == b && text_eq s t

-- `s.startsWith(p)`
abbrev pub starts_with : Text → Text → Bool
starts_with [] p = text_eq p []
starts_with (c ∷ s) [] = true
starts_with (c ∷ s) (d ∷ p) = c == d && starts_with s p

-- `s.endsWith(p)`
abbrev pub ends_with : Text → Text → Bool
ends_with [] p = text_eq p []
ends_with (c ∷ s) p = text_eq (c ∷ s) p || ends_with s p

-- `s.includes(p)`
abbrev pub includes : Text → Text → Bool
includes [] p = text_eq p []
includes (c ∷ s) p = starts_with (c ∷ s) p || includes s p

-- What `trim` takes away: white space and line terminators.
unfoldable pub is_space : ℕ → Bool
is_space c =
    (leb 9 c && leb c 13)
    || c == 32
    || c == 160
    || c == 0x1680
    || (leb 0x2000 c && leb c 0x200a)
    || c == 0x2028
    || c == 0x2029
    || c == 0x202f
    || c == 0x205f
    || c == 0x3000
    || c == 0xfeff

unfoldable pub trim_start : Text → Text
unfolding is_space
trim_start [] = []
trim_start (c ∷ s) = if is_space c then trim_start s else c ∷ s

-- `s.trim()`
unfoldable pub trim : Text → Text
unfolding trim_start
trim s = reverse (trim_start (reverse (trim_start s)))

pub text_eq_refl : (s : Text) → text_eq s s ≡ true
text_eq_refl [] = refl
text_eq_refl (c ∷ s) = ground (arith, text_eq_refl s)

pub text_eq_iff : (s t : Text) → ((text_eq s t) ≡ true) ↔ (s ≡ t)
text_eq_iff [] [] = ((λ _. refl), (λ _. refl))
text_eq_iff [] (_ ∷ _) = ground arith
text_eq_iff (_ ∷ _) [] = ground arith
text_eq_iff (a ∷ s) (b ∷ t) = ground (arith, text_eq_iff s t, ==_iff a b)

-- A text that begins with `p` is `p` and a rest.
pub starts_with_append : (p s : Text) → starts_with (p ++ s) p ≡ true
starts_with_append [] [] = refl
starts_with_append [] (c ∷ s) = refl
starts_with_append (c ∷ p) s = ground (arith, starts_with_append p s)

pub includes_append : (a p s : Text) → includes (a ++ p ++ s) p ≡ true
includes_append [] [] [] = refl
includes_append [] [] (c ∷ s) = refl
includes_append [] (c ∷ p) s = ground (arith, starts_with_append (c ∷ p) s)
includes_append (c ∷ a) p s = ground (arith, includes_append a p s)
