-- ===== src/Changes/Summary/Safe.antt =====
-- src/changes/metadata.ts: `safeSummary` keeps what the program makes.
use mathlib.Core.List.{append_assoc, append-nil}
use Prim.Native.Nat.{◌%◌}
use dbdock.Base.{
  ℕ, zero, suc, ◌+◌, ◌/◌, ◌≤◌, ◌==◌, ltb, length, length-append, Text, String, codes, ◌≡◌, refl,
  sym, ap, ◌∙◌, Bool, true, false, ◌||◌, none, some, List, [], ◌∷◌, ◌++◌, All, All-append,
  All-filter, arith, Bool-cases, inl, inr, if◌then◌else◌,
}
use dbdock.Changes.Summary.{
  SchemaChanges, decimal_from, decimal, count_text, changes_text, strip, is_digit, skip_digits,
  strip_number, skip_s, and_then, strip_count, is_schema_changes, sql_verbs, strip_verb,
  is_verb_tail, is_sql_operations, is_safe_summary, is_fixed, safe_summary, tail_text,
  operations_text, sql_summary, has_word,
}

strip-append : (p s : Text) → strip p (p ++ s) ≡ some s
unfolding strip
strip-append [] s = refl
strip-append (c ∷ p) s = ground (arith, strip-append p s)

abbrev AllDigits : Text → Type 0
AllDigits t = All (λ c. is_digit c ≡ true) t

digit-lt : (d : ℕ) → d ≤ 9 → is_digit (48 + d) ≡ true
digit-lt d h = ground arith

decimal_from-AllDigits : (k n : ℕ) → AllDigits (decimal_from k n)
unfolding decimal_from
decimal_from-AllDigits zero n = tt
decimal_from-AllDigits (suc k) n = elim (Bool-cases (ltb n 10)) [
  | inl one ↦ rw one (digit-lt n (ground arith), tt)
  | inr more ↦ rw more (
      All-append _ (decimal_from k (n / 10)) _ (decimal_from-AllDigits k (n / 10))
        (digit-lt (n % 10) (omega arith), tt))
]

skip_digits-append : (t s : Text) → AllDigits t → skip_digits (t ++ s) ≡ skip_digits s
unfolding skip_digits
skip_digits-append [] s h = refl
skip_digits-append (c ∷ t) s h = rw h.0 (skip_digits-append t s h.1)

strip_number-append :
    (front : Text) (d : ℕ) (s : Text)
    → AllDigits front
    → is_digit d ≡ true
    → strip_number ((front ++ d ∷ []) ++ s) ≡ some (skip_digits s)
strip_number-append [] d s h k = rw k refl
strip_number-append (c ∷ front) d s h k =
    rw h.0
      (ap some (skip_digits-append (front ++ d ∷ []) s (All-append _ front (d ∷ []) h.1 (k, tt))))

strip_number-decimal : (n : ℕ) (s : Text) → strip_number (decimal n ++ s) ≡ some (skip_digits s)
unfolding decimal_from
strip_number-decimal n s = elim (Bool-cases (ltb n 10)) [
  | inl one ↦ rw one (strip_number-append [] (48 + n) s tt (digit-lt n (ground arith)))
  | inr more ↦ rw more (
      strip_number-append (decimal_from n (n / 10)) (48 + n % 10) s
        (decimal_from-AllDigits n (n / 10)) (digit-lt (n % 10) (omega arith)))
]

skip_plural :
    (b : Bool) (verb : Text)
    → skip_s verb ≡ verb
    → skip_s ((if b then [] else codes "s") ++ verb) ≡ verb
skip_plural true verb h = h
skip_plural false verb h = refl

-- What `count` prints is read as one item.
strip_count-count_text :
    (n : ℕ) (noun verb : String) (rest : Text)
    → ((t : Text) → skip_digits (codes noun ++ t) ≡ codes noun ++ t)
    → ((t : Text) → skip_s (codes verb ++ t) ≡ codes verb ++ t)
    → strip_count noun verb (count_text n noun verb ++ rest) ≡ some rest
strip_count-count_text n noun verb rest h k =
    let plural : Text = if n == 1 then [] else codes "s" in
    let behind : Text = (plural ++ codes verb) ++ rest in
    ap (λ o. and_then o (λ s. and_then (strip (codes noun) s) (λ s. strip (codes verb) (skip_s s))))
      (ap strip_number (append_assoc (decimal n) (codes noun ++ (plural ++ codes verb)) rest)
        ∙ strip_number-decimal n _
        ∙ ap (λ t. some (skip_digits t)) (append_assoc (codes noun) (plural ++ codes verb) rest)
        ∙ ap some (h behind))
    ∙ ap (λ o. and_then o (λ s. strip (codes verb) (skip_s s))) (strip-append (codes noun) behind)
    ∙ ap (λ t. strip (codes verb) (skip_s t)) (append_assoc plural (codes verb) rest)
    ∙ ap (strip (codes verb)) (skip_plural (n == 1) (codes verb ++ rest) (k rest))
    ∙ strip-append (codes verb) rest

strip_count-end :
    (n : ℕ) (noun verb : String)
    → ((t : Text) → skip_digits (codes noun ++ t) ≡ codes noun ++ t)
    → ((t : Text) → skip_s (codes verb ++ t) ≡ codes verb ++ t)
    → strip_count noun verb (count_text n noun verb) ≡ some []
strip_count-end n noun verb h k =
    ap (strip_count noun verb) (sym (append-nil (count_text n noun verb)))
    ∙ strip_count-count_text n noun verb [] h k

changes_text-read : (c : SchemaChanges) → is_schema_changes (changes_text c) ≡ true
unfolding is_schema_changes changes_text strip skip_digits
changes_text-read c =
    rw (strip_count-count_text c.added_tables " table" " added" _ (λ t. refl) (λ t. refl)) (
      rw (strip_count-count_text c.removed_tables " table" " removed" _ (λ t. refl) (λ t. refl)) (
        rw (strip_count-count_text c.added_columns " column" " added" _ (λ t. refl) (λ t. refl)) (
          rw
            (strip_count-count_text c.removed_columns " column" " removed" _ (λ t. refl)
              (λ t. refl))
            (rw (strip_count-end c.changed_columns " column" " changed" (λ t. refl) (λ t. refl))
              refl))))

-- Each verb is read as itself, whatever stands behind it.
abbrev IsVerb : Text → Type 0
IsVerb v = (rest : Text) → strip_verb sql_verbs (v ++ rest) ≡ some rest

sql_verbs-IsVerb : All IsVerb sql_verbs
unfolding strip_verb strip
sql_verbs-IsVerb = (
  λ t. refl,
  (
    λ t. refl,
    (λ t. refl, (λ t. refl, (λ t. refl, (λ t. refl, (λ t. refl, (λ t. refl, (λ t. refl, tt))))))),
  ),
)

tail_text-read :
    (verbs : List Text) (n : ℕ)
    → All IsVerb verbs
    → length (tail_text verbs) ≤ n
    → is_verb_tail n (tail_text verbs) ≡ true
unfolding is_verb_tail strip
tail_text-read [] n h le = ground arith
tail_text-read (v ∷ verbs) zero h le = absurd (omega arith)
tail_text-read (v ∷ verbs) (suc n) h le =
    ap (λ o. elim o [ none ↦ false | some t ↦ is_verb_tail n t ]) (h.0 (tail_text verbs))
    ∙ tail_text-read verbs n h.1 (omega (arith, length-append v (tail_text verbs)))

operations_text-read :
    (v : Text) (verbs : List Text)
    → All IsVerb (v ∷ verbs)
    → is_sql_operations (operations_text (v ∷ verbs)) ≡ true
unfolding is_sql_operations strip
operations_text-read v verbs h =
    ap (λ o. elim o [ none ↦ false | some t ↦ is_verb_tail (length t) t ]) (h.0 (tail_text verbs))
    ∙ tail_text-read verbs (length (tail_text verbs)) h.1 (omega arith)

or_last : (a b c : Bool) → c ≡ true → (a || (b || c)) ≡ true
or_last a b c h = ground arith

or_middle : (a b c : Bool) → b ≡ true → (a || (b || c)) ≡ true
or_middle a b c h = ground arith

safe_summary-kept : (s : Text) → is_safe_summary s ≡ true → safe_summary (some s) ≡ s
unfolding safe_summary
safe_summary-kept s h = rw h refl

safe_summary-operations_text :
    (verbs : List Text)
    → All IsVerb verbs
    → safe_summary (some (operations_text verbs)) ≡ operations_text verbs
safe_summary-operations_text [] h = safe_summary-kept _ refl
safe_summary-operations_text (v ∷ verbs) h = safe_summary-kept (operations_text (v ∷ verbs)) (
    or_last (is_fixed (operations_text (v ∷ verbs)))
      (is_schema_changes (operations_text (v ∷ verbs)))
      (is_sql_operations (operations_text (v ∷ verbs))) (operations_text-read v verbs h))

-- What the program itself writes as a summary, of the SQL it runs or of the changes to a schema,
-- `safeSummary` recognises and keeps as it is: no such summary is lost for the fallback.
pub safe_summary-made :
    (sql : Text) (c : SchemaChanges)
    → (safe_summary (some (sql_summary sql)) ≡ sql_summary sql)
      × (safe_summary (some (changes_text c)) ≡ changes_text c)
unfolding sql_summary
safe_summary-made sql c = (
  safe_summary-operations_text _
      (All-filter IsVerb (λ v. has_word v false sql) sql_verbs sql_verbs-IsVerb),
  safe_summary-kept (changes_text c) (
      or_middle (is_fixed (changes_text c)) (is_schema_changes (changes_text c))
        (is_sql_operations (changes_text c)) (changes_text-read c)),
)
