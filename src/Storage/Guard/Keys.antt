-- ===== src/Storage/Guard/Keys.antt =====
-- Which keys src/storage/deletion-guard.ts lets a caller delete.
use mathlib.Core.List.{Memᴰ}
use dbdock.Base.{
  ◌≤◌, ◌<◌, ◌≡◌, refl, ◌≢◌, ◌↔◌, ◌⊎◌, inl, inr, Bool, true, false, ◌&&◌, ◌||◌, none, Text, codes,
  text_eq, trim, starts_with, ends_with, includes, List, [], ◌∷◌, ◌++◌, length, All, arith,
  text_eq_iff, ltb, ◌==◌, Bool-cases,
}
use dbdock.Base.Occurs.{Begins, Ends, Occurs, starts_with_iff, ends_with_iff, includes_iff, any_iff}
use dbdock.Storage.Guard.{
  has_control_character, validate_key_structure, is_within_allowed_prefix, assert_deletable_key,
}

-- A key that names one object, said without the tests of the code.
pub record IsObjectKey (key : Text) : Type 0 where
  pub nonempty : key ≢ []
  pub trimmed : key ≡ trim key
  pub short : length key ≤ 1024
  pub no_leading_slash : ¬ Begins key (codes "/")
  pub no_trailing_slash : ¬ Ends key (codes "/")
  pub no_traversal : ¬ Occurs key (codes "..")
  pub no_wildcard : ¬ Occurs key (codes "*")
  pub no_control : All (λ c. (0x1f < c) × (c ≢ 0x7f)) key

-- The key lies under one of the prefixes, at its start or behind a slash.
pub record IsProtected (key : Text) (prefixes : List Text) : Type 0 where
  pub prefix : Text
  pub listed : Memᴰ prefix prefixes
  pub nonempty : prefix ≢ []
  pub placed : Begins key prefix ⊎ Occurs key (codes "/" ++ prefix)

false_of_not : {b : Bool} {P : Type 0} → (b ≡ true) ↔ P → ¬ P → b ≡ false
false_of_not {b = true} e h = absurd (h (e.0 refl))
false_of_not {b = false} e h = refl

not_of_false : {b : Bool} {P : Type 0} → (b ≡ true) ↔ P → b ≡ false → ¬ P
not_of_false e h p = cc (e.1 p)

no_control_iff :
    (key : Text) → (has_control_character key ≡ false) ↔ All (λ c. (0x1f < c) × (c ≢ 0x7f)) key
unfolding has_control_character
no_control_iff [] = ((λ _. tt), (λ _. refl))
no_control_iff (c ∷ s) = ground (arith, no_control_iff s)

length-eq-zero : (s : Text) → (length s == 0) ≡ false → s ≢ []
length-eq-zero [] h = cc
length-eq-zero (c ∷ s) h = cc

length-ne-zero : (s : Text) → s ≢ [] → (length s == 0) ≡ false
length-ne-zero [] h = absurd (h refl)
length-ne-zero (c ∷ s) h = ground arith

-- The key passes the tests one by one.
record Passes (key : Text) : Type 0 where
  full : (length key == 0) ≡ false
  same : text_eq key (trim key) ≡ true
  fits : ltb 1024 (length key) ≡ false
  leading : starts_with key (codes "/") ≡ false
  trailing : ends_with key (codes "/") ≡ false
  dots : includes key (codes "..") ≡ false
  stars : includes key (codes "*") ≡ false
  controls : has_control_character key ≡ false

validate→Passes : (key : Text) → validate_key_structure key ≡ none → Passes key
unfolding validate_key_structure
validate→Passes key h = ground arith

Passes→validate : (key : Text) → Passes key → validate_key_structure key ≡ none
unfolding validate_key_structure
Passes→validate key p = ground arith

Passes→IsObjectKey : (key : Text) → Passes key → IsObjectKey key
Passes→IsObjectKey key p = record {
  nonempty = length-eq-zero key p.full;
  trimmed = (text_eq_iff key (trim key)).0 p.same;
  short = ground (arith, p.fits);
  no_leading_slash = not_of_false (starts_with_iff key (codes "/")) p.leading;
  no_trailing_slash = not_of_false (ends_with_iff key (codes "/")) p.trailing;
  no_traversal = not_of_false (includes_iff key (codes "..")) p.dots;
  no_wildcard = not_of_false (includes_iff key (codes "*")) p.stars;
  no_control = (no_control_iff key).0 p.controls;
}

IsObjectKey→Passes : (key : Text) → IsObjectKey key → Passes key
IsObjectKey→Passes key k = record {
  full = length-ne-zero key k.nonempty;
  same = (text_eq_iff key (trim key)).1 k.trimmed;
  fits = ground (arith, k.short);
  leading = false_of_not (starts_with_iff key (codes "/")) k.no_leading_slash;
  trailing = false_of_not (ends_with_iff key (codes "/")) k.no_trailing_slash;
  dots = false_of_not (includes_iff key (codes "..")) k.no_traversal;
  stars = false_of_not (includes_iff key (codes "*")) k.no_wildcard;
  controls = (no_control_iff key).1 k.no_control;
}

-- `validateKeyStructure` returns exactly for the keys that name one object.
pub validate_key_structure_iff :
    (key : Text) → (validate_key_structure key ≡ none) ↔ IsObjectKey key
validate_key_structure_iff key = (
  (λ h. Passes→IsObjectKey key (validate→Passes key h)),
  (λ k. Passes→validate key (IsObjectKey→Passes key k)),
)

abbrev matches : Text → Text → Bool
matches key prefix =
    ltb 0 (length prefix) && (starts_with key prefix || includes key (codes "/" ++ prefix))

pos→nonempty : (p : Text) → ltb 0 (length p) ≡ true → p ≢ []
pos→nonempty [] h = cc
pos→nonempty (c ∷ p) h = cc

nonempty→pos : (p : Text) → p ≢ [] → ltb 0 (length p) ≡ true
nonempty→pos [] h = absurd (h refl)
nonempty→pos (c ∷ p) h = ground arith

matches→placed :
    (key prefix : Text)
    → matches key prefix ≡ true
    → Begins key prefix ⊎ Occurs key (codes "/" ++ prefix)
matches→placed key prefix h = elim (Bool-cases (starts_with key prefix)) [
  | inl e ↦ inl ((starts_with_iff key prefix).0 e)
  | inr e ↦ inr ((includes_iff key (codes "/" ++ prefix)).0 (ground arith))
]

placed→matches :
    (key prefix : Text)
    → prefix ≢ []
    → Begins key prefix ⊎ Occurs key (codes "/" ++ prefix)
    → matches key prefix ≡ true
placed→matches key prefix h (inl b) =
    ground (arith, nonempty→pos prefix h, (starts_with_iff key prefix).1 b)
placed→matches key prefix h (inr o) =
    ground (arith, nonempty→pos prefix h, (includes_iff key (codes "/" ++ prefix)).1 o)

pub is_within_allowed_prefix_iff :
    (key : Text) (prefixes : List Text)
    → (is_within_allowed_prefix key prefixes ≡ true) ↔ IsProtected key prefixes
unfolding is_within_allowed_prefix
is_within_allowed_prefix_iff key prefixes = (
  (λ h.
      let (p, m, e) = (any_iff (matches key) prefixes).0 h in
      record {
        prefix = p;
        listed = m;
        nonempty = pos→nonempty p (ground arith);
        placed = matches→placed key p e;
      }),
  (λ k.
      (any_iff (matches key) prefixes).1
        (k.prefix, k.listed, placed→matches key k.prefix k.nonempty k.placed)),
)

assert_deletable_key_split :
    (key : Text) (prefixes : List Text)
    → (assert_deletable_key key prefixes ≡ none)
      ↔ ((validate_key_structure key ≡ none) × (is_within_allowed_prefix key prefixes ≡ true))
unfolding assert_deletable_key
assert_deletable_key_split key prefixes = ground arith

-- `assertDeletableKey` lets a key through exactly when it names one object (it is not empty, has
-- no surrounding white space, at most 1024 code units, no slash at either end, no "..", no "*" and
-- no control character) and lies under a non-empty allowed prefix, at its start or behind a slash.
pub assert_deletable_key_iff :
    (key : Text) (prefixes : List Text)
    → (assert_deletable_key key prefixes ≡ none) ↔ (IsObjectKey key × IsProtected key prefixes)
assert_deletable_key_iff key prefixes =
    let split = assert_deletable_key_split key prefixes in
    let object = validate_key_structure_iff key in
    let protected = is_within_allowed_prefix_iff key prefixes in
    (
      (λ h. (object.0 (split.0 h).0, protected.0 (split.0 h).1)),
      (λ k. split.1 (object.1 k.0, protected.1 k.1)),
    )
