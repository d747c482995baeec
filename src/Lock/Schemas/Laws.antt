-- ===== src/Lock/Schemas/Laws.antt =====
-- src/standalone/database-lock.ts: what may be emptied, and in which order.
use mathlib.Core.List.{Perm}
use dbdock.Base.{
  ◌≡◌, refl, sym, ◌≢◌, leb, Text, text_eq_refl, Bool, true, false, not, Option, none, some, List,
  [], ◌∷◌, map, filter, All, arith,
}
use dbdock.Base.Sort.{IsSorted, sort_by-perm, sort_by-IsSorted}
use dbdock.Lock.Schemas.{
  DbObject, Emptying, statements, unknown_objects, has_name, is_managed_schema, refused_schemas,
  restorable_of, refused_of, targets_of, is_known, order_of, drop_order, drop_statement, emptying,
  empty_schema_statements,
}

-- The role may replace it, and no platform runs it.
abbrev pub IsReplaceable : List Text → Text → Type 0
IsReplaceable restorable name = (is_managed_schema name ≡ false) × (has_name name restorable ≡ true)

has_name-cons :
    (t n : Text) (names : List Text) → has_name t names ≡ true → has_name t (n ∷ names) ≡ true
has_name-cons t n names h = ground arith

All-has_name :
    (names : List Text) (more : List Text)
    → ((t : Text) → has_name t names ≡ true → has_name t more ≡ true)
    → All (λ t. has_name t more ≡ true) names
All-has_name [] more f = tt
All-has_name (n ∷ names) more f = (
  f n (ground (arith, text_eq_refl n)),
  All-has_name names more (λ t h. f t (has_name-cons t n names h)),
)

All-zip {κ} :
    (P Q : Text → Type κ) (names : List Text)
    → All P names
    → All Q names
    → All (λ t. P t × Q t) names
All-zip P Q [] h k = tt
All-zip P Q (n ∷ names) h k = ((h.0, k.0), All-zip P Q names h.1 k.1)

restorable_of-unmanaged :
    (names : List Text) → All (λ t. is_managed_schema t ≡ false) (restorable_of names)
unfolding restorable_of
restorable_of-unmanaged [] = tt
restorable_of-unmanaged (n ∷ names) = ground (arith, restorable_of-unmanaged names)

asked-IsReplaceable :
    (schemas existing restorable : List Text)
    → refused_schemas schemas existing restorable ≡ []
    → All (IsReplaceable restorable) (filter (λ name. has_name name existing) schemas)
unfolding refused_schemas
asked-IsReplaceable [] existing restorable h = tt
asked-IsReplaceable (n ∷ schemas) existing restorable h =
    ground (arith, asked-IsReplaceable schemas existing restorable)

-- Where `resetPostgres` refuses nothing, every schema that it empties is one that the connecting role
-- may replace and that is neither managed by a platform nor one of Postgres itself, whether the
-- schemas were asked for or not.
pub targets_of-IsReplaceable :
    (schemas : Option (List Text)) (existing droppable : List Text)
    → refused_of schemas existing (restorable_of droppable) ≡ []
    → All
        (IsReplaceable (restorable_of droppable))
        (targets_of schemas existing (restorable_of droppable))
unfolding targets_of refused_of
targets_of-IsReplaceable none existing droppable h =
    All-zip _ _ (restorable_of droppable) (restorable_of-unmanaged droppable)
      (All-has_name (restorable_of droppable) (restorable_of droppable) (λ t h. h))
targets_of-IsReplaceable (some schemas) existing droppable h =
    asked-IsReplaceable schemas existing (restorable_of droppable) h

abbrev before : DbObject → DbObject → Bool
before a b = leb (order_of a) (order_of b)

-- The objects of the statements, in their order, or those that stand in the way.
abbrev pub Empties : List DbObject → Emptying → Type 0
Empties objects (statements drops) =
    (ordered : List DbObject) × (drops ≡ map drop_statement ordered)
    × Perm ordered objects
    × IsSorted before ordered
    × All (λ o. is_known o ≡ true) objects
Empties objects (unknown_objects unknown) =
    (unknown ≡ filter (λ o. not (is_known o)) objects) × (unknown ≢ [])

known_each :
    (objects : List DbObject)
    → filter (λ o. not (is_known o)) objects ≡ []
    → All (λ o. is_known o ≡ true) objects
known_each [] h = tt
known_each (o ∷ objects) h = ground (arith, known_each objects)

Empties-emptying :
    (unknown objects : List DbObject)
    → filter (λ o. not (is_known o)) objects ≡ unknown
    → Empties objects (emptying unknown objects)
unfolding drop_order
Empties-emptying [] objects h = (
  drop_order objects,
  refl,
  sort_by-perm before objects,
  sort_by-IsSorted before (λ x y n. ground arith) (λ x y z p q. ground arith) objects,
  known_each objects h,
)
Empties-emptying (u ∷ us) objects h = (sym h, λ e. cc)

-- `emptySchemaStatements` drops each object of the schema exactly once, in an order in which nothing
-- of a later kind goes before one of an earlier kind; or, where it does not know how to remove some
-- of them, it gives no statement and names exactly these.
pub empty_schema_statements-Empties :
    (objects : List DbObject) → Empties objects (empty_schema_statements objects)
unfolding empty_schema_statements
empty_schema_statements-Empties objects = Empties-emptying _ objects refl
