-- ===== src/Lock/Postgres/Locking.antt =====
-- src/standalone/database-lock.ts: the taking of the Postgres lock, and its holder's calls in any order.
use dbdock.Base.{
  Text, ◌≡◌, refl, ap, ◌∙◌, Bool, true, false, Option, List, ◌⊎◌, inl, inr, if◌then◌else◌,
}
use dbdock.Base.Effect.{Effect, Result, ok, err, pure, throw, try_catch, ◌>>=◌, continue, rescue}
use dbdock.Lock.Postgres.{
  PgClient, LockError, released, busy, sql, named, query, ignored, lock_postgres, require_locked,
  end_and_throw, Handle, reset, close_lock, through, release,
}

module _ {E W : Type 0} (client : PgClient E W) where
  -- What the taking of a lock has done: it holds the lock, or no connection is left, since none was
  -- made or the last call ended it.
  abbrev Taken : W → Result (LockError E) Unit × W → Type 0
  Taken w (ok x, v) = (u : W) × (client.connect w ≡ (ok tt, u)) × (client.try_lock u ≡ (ok true, v))
  Taken w (err e, v) =
      ((f : E) × (client.connect w ≡ (err f, v))) ⊎ ((u : W) × (v ≡ (client.close u).1))

  ignored_end : (u : W) → (ignored client.close u) ≡ (ok tt, (client.close u).1)
  unfolding ignored query ◌>>=◌
  ignored_end u = from (client.close u)
    where
      from : (r : Result E Unit × W) → rescue (named r) (λ _. pure tt) ≡ (ok tt, r.1)
      from (ok tt, v) = refl
      from (err e, v) = refl

  ended : (w u : W) (e : LockError E) → Taken w (end_and_throw client e u)
  unfolding ◌>>=◌
  ended w u e = rw (ignored_end u) (inr (u, refl))

  locked_after :
      (w u : W) (r : Result E Bool × W)
      → client.connect w ≡ (ok tt, u)
      → client.try_lock u ≡ r
      → Taken w (rescue (continue (named r) (require_locked client)) (end_and_throw client))
  unfolding ◌>>=◌
  locked_after w u (ok true, v) c h = (u, c, h)
  locked_after w u (ok false, v) c h = ended w v busy
  locked_after w u (err e, v) c h = ended w v (sql e)

  connected_after :
      (w : W) (r : Result E Unit × W)
      → client.connect w ≡ r
      → Taken w (
          continue (named r) (λ _.
            try_catch (query client.try_lock >>= require_locked client) (end_and_throw client)))
  unfolding query ◌>>=◌
  connected_after w (ok tt, u) h = locked_after w u (client.try_lock u) h refl
  connected_after w (err e, u) h = inl (e, h)

  -- `lockPostgres` returns only where the server has granted the lock on the connection just made.
  -- Where it throws, it holds no connection: either none was made, or the last thing it did was to
  -- end the one made.
  lock_postgres-Taken : (w : W) → Taken w (lock_postgres client w)
  unfolding lock_postgres query ◌>>=◌
  lock_postgres-Taken w = connected_after w (client.connect w) refl

  -- A call of the holder.
  pub data HolderCall : Type 0 where
    reset_call : Option (List Text) → HolderCall
    close_call : HolderCall

  unfoldable pub call : HolderCall → Effect (LockError E) (Handle E W) Unit
  call (reset_call schemas) = reset client schemas
  call close_call = close_lock client

  -- Any sequence of calls, each of which may throw.
  pub data Calls (h : Handle E W) : Handle E W → Type 0 where
    done : Calls h h
    then_call : {m : Handle E W} → Calls h m → (c : HolderCall) → Calls h (call c m).1

  call-closed : (c : HolderCall) (h : Handle E W) → h.closed ≡ true → (call c h).1 ≡ h
  unfolding call reset close_lock throw ◌>>=◌
  call-closed (reset_call schemas) h e = simp e refl
  call-closed close_call h e = simp e refl

  closed-Calls : (h k : Handle E W) → h.closed ≡ true → Calls h k → k ≡ h
  closed-Calls h k e done = refl
  closed-Calls h k e (then_call {m} before c) =
      let same = closed-Calls h m e before in call-closed c m (ap (λ x. x.closed) same ∙ e) ∙ same

  close_lock-closed : (h : Handle E W) → (close_lock client h).1.closed ≡ true
  unfolding close_lock through ◌>>=◌
  close_lock-closed h = by_flag h.closed refl
    where
      by_flag :
          (b : Bool)
          → h.closed ≡ b
          → (if b
              then (ok tt, h)
              else through (release client) (record h { closed = true })).1.closed
            ≡ true
      by_flag true e = e
      by_flag false e = refl

  reset-released :
      (schemas : Option (List Text)) (h : Handle E W)
      → h.closed ≡ true
      → (reset client schemas h).0 ≡ err released
  unfolding reset throw ◌>>=◌
  reset-released schemas h e = simp e refl

  -- Once the holder has closed the lock, no sequence of further calls reaches the database: the
  -- world and the lock stay as the close left them, so a second close releases nothing again, and
  -- every reset throws that the lock has been released.
  pub close_lock-final :
      (h k : Handle E W) (schemas : Option (List Text))
      → Calls (close_lock client h).1 k
      → (k ≡ (close_lock client h).1) × ((reset client schemas k).0 ≡ err released)
  close_lock-final h k schemas calls =
      let same = closed-Calls _ k (close_lock-closed h) calls in
      (same, reset-released schemas k (ap (λ x. x.closed) same ∙ close_lock-closed h))
