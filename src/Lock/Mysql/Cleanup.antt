-- ===== src/Lock/Mysql/Cleanup.antt =====
-- src/standalone/database-lock.ts: what a reset of MySQL leaves on its connection.
use dbdock.Base.{Text, ◌≡◌, refl, true, false, List, ◌⊎◌, inl, inr}
use dbdock.Base.Effect.{Result, ok, err, pure, ◌>>=◌, ◌>>◌, continue, rescue}
use dbdock.Lock.Postgres.{LockError, named, query, ignored}
use dbdock.Lock.Mysql.{
  MysqlObject, MysqlClient, run_statements, mysql_drop_statements, with_checks_after, after_checks,
  reset_mysql,
}

module _ {E W : Type 0} (client : MysqlClient E W) where
  -- The last call on the connection asked for the checks.
  abbrev pub CheckedLast : W → Type 0
  CheckedLast v = (u : W) × (v ≡ (client.foreign_key_checks true u).1)

  -- The listing, or the call that turns the checks off, has failed, and nothing came after it.
  abbrev pub NeverOff : W → W → Type 0
  NeverOff w v =
      ((f : E) × (client.objects w ≡ (err f, v)))
      ⊎ ((u : W) × (f : E) × (client.foreign_key_checks false u ≡ (err f, v)))

  abbrev pub Restored : W → Result (LockError E) Unit × W → Type 0
  Restored w (ok x, v) = CheckedLast v
  Restored w (err e, v) = NeverOff w v ⊎ CheckedLast v

  ignored_checks :
      (u : W)
      → (ignored (client.foreign_key_checks true) u).1 ≡ (client.foreign_key_checks true u).1
  unfolding ignored query ◌>>=◌
  ignored_checks u = from (client.foreign_key_checks true u)
    where
      from : (r : Result E Unit × W) → (rescue {E = LockError E} (named r) (λ _. pure tt)).1 ≡ r.1
      from (ok tt, v) = refl
      from (err e, v) = refl

  after_off : (w : W) (r : Result (LockError E) Unit × W) → Restored w (after_checks client r)
  after_off w (ok tt, v) = (v, ignored_checks v)
  after_off w (err e, v) = inr (v, ignored_checks v)

  after_objects :
      (w u : W) (drops : List Text) (r : Result E Unit × W)
      → client.foreign_key_checks false u ≡ r
      → Restored w
          (continue (named r) (λ _. with_checks_after client (run_statements client drops)))
  unfolding with_checks_after
  after_objects w u drops (ok tt, v) h = after_off w (run_statements client drops v)
  after_objects w u drops (err e, v) h = inl (inr (u, e, h))

  after_start :
      (w : W) (r : Result E (List MysqlObject) × W)
      → client.objects w ≡ r
      → Restored w (
          continue (named r) (λ objects.
            query (client.foreign_key_checks false)
            >> with_checks_after client (run_statements client (mysql_drop_statements objects))))
  unfolding query ◌>>=◌
  after_start w (ok objects, u) h =
      after_objects w u (mysql_drop_statements objects) (client.foreign_key_checks false u) refl
  after_start w (err e, v) h = inl (inl (e, h))

  -- However a reset of MySQL ends, the checks of foreign keys were never turned off, or the last
  -- call on the connection is the one that turns them on: a drop that fails half-way cannot leave
  -- them off without its having been asked for.
  pub reset_mysql-Restored : (w : W) → Restored w (reset_mysql client w)
  unfolding reset_mysql query ◌>>=◌
  reset_mysql-Restored w = after_start w (client.objects w) refl
