-- ===== src/Lock/Mysql.antt =====
-- src/standalone/database-lock.ts: `lockMysql`, its reset, and the choice of the lock. The driver's
-- connection is a parameter, as is the digest of SHA-256.
pub mod Quoting
pub mod Cleanup
pub mod Tests
use dbdock.Base.{
  ◌==◌, Text, codes, text_eq, take, Bool, true, false, Option, none, some, List, [], ◌∷◌, ◌++◌, map,
  any, if◌then◌else◌,
}
use dbdock.Base.Effect.{Effect, Result, ok, pure, throw, try_catch, ◌>>=◌, ◌>>◌}
use dbdock.Lock.Postgres.{
  no_database_name, Handle, require_open, through, LockError, busy, query, ignored,
}

-- `name.replace(/`/g, '``')`
unfoldable pub double_ticks : Text → Text
double_ticks [] = []
double_ticks (c ∷ name) =
    let rest = double_ticks name in if c == 96 then 96 ∷ 96 ∷ rest else c ∷ rest

-- `quoteMysqlIdentifier`
unfoldable pub quote_mysql_identifier : Text → Text
quote_mysql_identifier name = 96 ∷ (double_ticks name ++ 96 ∷ [])

pub record MysqlObject : Type 0 where
  pub kind : Text
  pub name : Text

-- One of `mysqlDropStatements`.
unfoldable pub mysql_drop : MysqlObject → Text
mysql_drop o = codes "DROP " ++ (o.kind ++ (codes " IF EXISTS " ++ quote_mysql_identifier o.name))

-- `mysqlDropStatements`
unfoldable pub mysql_drop_statements : List MysqlObject → List Text
mysql_drop_statements objects = map mysql_drop objects

-- `mysqlLockName`, over the digest in hexadecimal.
unfoldable pub mysql_lock_name : (Text → Text) → Text → Text
mysql_lock_name digest database = codes "dbdock:restore:" ++ take 40 (digest database)

-- The queries of the module on one connection. `get_lock` says whether the answer was 1.
pub record MysqlClient (E W : Type 0) : Type 0 where
  pub connect : Effect E W Unit
  pub get_lock : Text → Effect E W Bool
  pub release_lock : Text → Effect E W Unit
  pub close : Effect E W Unit
  -- `MYSQL_OBJECTS_SQL`
  pub objects : Effect E W (List MysqlObject)
  -- `SET FOREIGN_KEY_CHECKS`
  pub foreign_key_checks : Bool → Effect E W Unit
  pub execute : Text → Effect E W Unit

module _ {E W : Type 0} (client : MysqlClient E W) where
  abbrev pub require_granted : Bool → Effect (LockError E) W Unit
  require_granted true = pure tt
  require_granted false = throw busy

  abbrev pub close_and_throw : LockError E → Effect (LockError E) W Unit
  close_and_throw e = do ignored client.close; throw e

  unfoldable pub lock_named : Text → Effect (LockError E) W Unit
  lock_named lock_name = do
    query client.connect
    try_catch (do granted ← query (client.get_lock lock_name); require_granted granted)
        close_and_throw

  -- `lockMysql`, up to the lock that it returns, over the digest and the name of the database.
  unfoldable pub lock_mysql : (Text → Text) → Text → Effect (LockError E) W Unit
  lock_mysql digest [] = throw no_database_name
  lock_mysql digest (c ∷ database) = lock_named (mysql_lock_name digest (c ∷ database))

  unfoldable pub run_statements : List Text → Effect (LockError E) W Unit
  run_statements [] = pure tt
  run_statements (statement ∷ more) = do query (client.execute statement); run_statements more

  abbrev pub after_checks : Result (LockError E) Unit × W → Result (LockError E) Unit × W
  after_checks (r, w) = (r, ((ignored (client.foreign_key_checks true)) w).1)

  -- `try { ... } finally { SET FOREIGN_KEY_CHECKS = 1 }`, whose own failure is ignored.
  unfoldable pub with_checks_after : Effect (LockError E) W Unit → Effect (LockError E) W Unit
  with_checks_after m w = after_checks (m w)

  -- What `reset` does on an open lock.
  unfoldable pub reset_mysql : Effect (LockError E) W Unit
  reset_mysql = do
    objects ← query client.objects
    query (client.foreign_key_checks false)
    with_checks_after (run_statements (mysql_drop_statements objects))

  unfoldable pub release_mysql : Text → Effect (LockError E) W Unit
  release_mysql lock_name = do ignored (client.release_lock lock_name); ignored client.close

  -- `reset` of the lock.
  unfoldable pub reset_lock : Effect (LockError E) (Handle E W) Unit
  reset_lock h = ((require_open h.closed h.lost) >> (through reset_mysql)) h

  -- `close` of the lock.
  unfoldable pub close_mysql : Text → Effect (LockError E) (Handle E W) Unit
  close_mysql lock_name h =
      if h.closed
      then (ok tt, h)
      else through (release_mysql lock_name) (record h { closed = true })

-- `conn.database || fallback`
abbrev pub database_name : Text → Text → Text
database_name [] fallback = fallback
database_name (c ∷ database) fallback = c ∷ database

pub data LockKind : Type 0 where
  postgres_lock mysql_lock unsupported : LockKind

-- `lockDatabase`, over the type in lower case.
unfoldable pub lock_kind : Text → LockKind
lock_kind type =
    let kind = database_name type (codes "postgres") in
    if any (λ k. text_eq k kind) (codes "postgres" ∷ codes "postgresql" ∷ [])
    then postgres_lock
    else if any (λ k. text_eq k kind) (codes "mysql" ∷ codes "mariadb" ∷ [])
    then mysql_lock
    else unsupported

pub data SslMode : Type 0 where
  disable allow prefer require verify_ca verify_full : SslMode

-- What a connection is asked to do about TLS: no choice, none, or with these checks.
pub data Tls : Type 0 where
  unset off : Tls
  tls : Bool → Bool → Tls

-- `postgresTls`: whether the certificate is checked, and whether the host name is.
unfoldable pub postgres_tls : Option SslMode → Tls
postgres_tls none = unset
postgres_tls (some disable) = off
postgres_tls (some allow) = off
postgres_tls (some prefer) = tls false true
postgres_tls (some require) = tls false true
postgres_tls (some verify_ca) = tls true false
postgres_tls (some verify_full) = tls true true

-- `mysqlTls`
unfoldable pub mysql_tls : Option SslMode → Tls
mysql_tls none = unset
mysql_tls (some disable) = unset
mysql_tls (some allow) = unset
mysql_tls (some prefer) = tls false false
mysql_tls (some require) = tls false false
mysql_tls (some verify_ca) = tls true false
mysql_tls (some verify_full) = tls true true
