-- ===== src/Database/Pool/Laws.antt =====
-- What a request for a connection comes to.
use finna_app.Prelude.{
  ℕ, suc, ◌+◌, ◌*◌, ◌^◌, ◌≤◌, ◌<◌, ◌≡◌, refl, ◌⊎◌, inl, inr, Bool, true, arith, subst, sym,
}
use finna_app.Python.Try.{ok, raise, pool_timeout, db_error}
use finna_app.Database.Pool.{
  Got, fresh, stale, absent, timed_out, failed, PoolUse, Reply, base_delay, max_retries, on_timeout,
  attempted, attempts_from, get_connection,
}

module _ (getconn : ℕ → Got) (puts : ℕ → Bool) where
  -- A connection that is returned is an open one of one of the attempts, and the only one that is taken;
  -- with an error none is, and it is the pool's.
  abbrev pub IsSettled : ℕ → ℕ → Reply → Type 0
  IsSettled before limit (ok conn, u) =
      (u.taken ≡ suc before)
      × (u.waited ≤ limit)
      × ((i : ℕ) × (i < max_retries) × (getconn i ≡ fresh conn))
  IsSettled before limit (raise e, u) =
      (u.taken ≡ before) × (u.waited ≤ limit) × ((e ≡ pool_timeout) ⊎ (e ≡ db_error))

  last-IsSettled :
      (next : PoolUse → Reply) (got : Got) (u : PoolUse) (limit : ℕ)
      → getconn 2 ≡ got
      → u.waited ≤ limit
      → IsSettled u.taken limit (attempted true 2 next got u)
  unfolding attempted
  last-IsSettled next (fresh conn) u limit e h = (refl, h, (2, omega arith, e))
  last-IsSettled next stale u limit e h = (refl, h, inl refl)
  last-IsSettled next absent u limit e h = (refl, h, inl refl)
  last-IsSettled next timed_out u limit e h = (refl, h, inl refl)
  last-IsSettled next failed u limit e h = (refl, h, inr refl)

  on_timeout-next :
      (attempt : ℕ) (next : PoolUse → Reply) (u : PoolUse)
      → attempt < 2
      → next (record u { waited = u.waited + base_delay * 2 ^ attempt }) ≡ on_timeout attempt next u
  unfolding on_timeout
  on_timeout-next attempt next u h = ground arith

  earlier-IsSettled :
      (attempt : ℕ) (next : PoolUse → Reply) (got : Got) (u : PoolUse) (limit : ℕ)
      → attempt < 2
      → getconn attempt ≡ got
      → u.waited ≤ limit
      → IsSettled u.taken limit (next (record u { waited = u.waited + base_delay * 2 ^ attempt }))
      → IsSettled u.taken limit (attempted true attempt next got u)
  unfolding attempted
  earlier-IsSettled attempt next (fresh conn) u limit low e h rest =
      (refl, h, (attempt, omega arith, e))
  earlier-IsSettled attempt next stale u limit low e h rest =
      subst (IsSettled u.taken limit) (on_timeout-next attempt next u low) rest
  earlier-IsSettled attempt next absent u limit low e h rest =
      subst (IsSettled u.taken limit) (on_timeout-next attempt next u low) rest
  earlier-IsSettled attempt next timed_out u limit low e h rest =
      subst (IsSettled u.taken limit) (on_timeout-next attempt next u low) rest
  earlier-IsSettled attempt next failed u limit low e h rest = (refl, h, inr refl)

  -- With a pool that takes every connection back, the request ends after three attempts at most: with an open
  -- connection that one of them got, which is the only one taken, or with an error of the pool and none
  -- taken. It has slept for 300 ms at most.
  pub get_connection-IsSettled :
      (u : PoolUse)
      → ((i : ℕ) → puts i ≡ true)
      → IsSettled u.taken (u.waited + 300) (get_connection getconn puts u)
  unfolding get_connection
  get_connection-IsSettled u back =
      let L = u.waited + 300 in
      let v = record u { waited = u.waited + 100 } in
      let w = record v { waited = v.waited + 200 } in
      let third =
        subst
          (λ (b : Bool).
            IsSettled u.taken L (attempted b 2 (attempts_from getconn puts 0 3) (getconn 2) w))
          (sym (back 2))
          (last-IsSettled (attempts_from getconn puts 0 3) (getconn 2) w L refl (omega arith)) in
      let second =
        subst
          (λ (b : Bool).
            IsSettled u.taken L (attempted b 1 (attempts_from getconn puts 1 2) (getconn 1) v))
          (sym (back 1))
          (earlier-IsSettled 1 (attempts_from getconn puts 1 2) (getconn 1) v L (omega arith) refl
            (omega arith) third) in
      subst
        (λ (b : Bool).
          IsSettled u.taken L (attempted b 0 (attempts_from getconn puts 2 1) (getconn 0) u))
        (sym (back 0))
        (earlier-IsSettled 0 (attempts_from getconn puts 2 1) (getconn 0) u L (omega arith) refl
          (omega arith) second)
