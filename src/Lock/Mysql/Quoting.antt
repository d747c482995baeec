-- ===== src/Lock/Mysql/Quoting.antt =====
-- src/standalone/database-lock.ts: a quoted name is read back as the one name that it was.
use mathlib.Core.List.{append_assoc}
use dbdock.Base.{
  ℕ, ◌==◌, ==_iff, ◌≡◌, refl, sym, ap, ◌∙◌, Text, Bool, true, false, Option, none, some, [], ◌∷◌,
  ◌++◌, Bool-cases, inl, inr, if◌then◌else◌,
}
use dbdock.Lock.Mysql.{double_ticks, quote_mysql_identifier}

-- How the server reads a quoted identifier: up to a single tick, where two ticks stand for one. The
-- flag is a tick just read.
abbrev pub add_front : ℕ → Option (Text × Text) → Option (Text × Text)
add_front c none = none
add_front c (some (name, rest)) = some (c ∷ name, rest)

unfoldable pub scan : Bool → Text → Option (Text × Text)
scan true [] = some ([], [])
scan false [] = none
scan true (c ∷ s) =
    let more = scan false s in if c == 96 then add_front 96 more else some ([], c ∷ s)
scan false (c ∷ s) =
    let quoted = scan true s in
    let plain = scan false s in if c == 96 then quoted else add_front c plain

pub read_identifier : Text → Option (Text × Text)
read_identifier [] = none
read_identifier (c ∷ s) = if c == 96 then scan false s else none

-- What follows a quoted name does not begin with a tick.
abbrev pub NoTick : Text → Type 0
NoTick [] = Unit
NoTick (c ∷ s) = (c == 96) ≡ false

scan-end : (rest : Text) → NoTick rest → scan true rest ≡ some ([], rest)
unfolding scan
scan-end [] h = refl
scan-end (c ∷ s) h = rw h refl

scan-double_ticks :
    (name rest : Text)
    → NoTick rest
    → scan false (double_ticks name ++ 96 ∷ rest) ≡ some (name, rest)
unfolding scan double_ticks
scan-double_ticks [] rest h = scan-end rest h
scan-double_ticks (c ∷ name) rest h = elim (Bool-cases (c == 96)) [
  | inl tick ↦ rw tick (
      ap (add_front 96) (scan-double_ticks name rest h)
      ∙ ap (λ k. some (k ∷ name, rest)) (sym ((==_iff c 96).0 tick)))
  | inr plain ↦ rw plain (rw plain (ap (add_front c) (scan-double_ticks name rest h)))
]

-- A quoted name, whatever it contains, is read back as itself, up to its closing tick and no
-- further: nothing in a name can end the identifier and be taken for SQL.
pub read-quote_mysql_identifier :
    (name rest : Text)
    → NoTick rest
    → read_identifier (quote_mysql_identifier name ++ rest) ≡ some (name, rest)
unfolding read_identifier quote_mysql_identifier
read-quote_mysql_identifier name rest h =
    ap (scan false) (append_assoc (double_ticks name) (96 ∷ []) rest)
    ∙ scan-double_ticks name rest h
