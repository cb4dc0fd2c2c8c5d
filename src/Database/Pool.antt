-- ===== src/Database/Pool.antt =====
-- `get_connection` of backend/app/api/db.py. The pool is psycopg's: what `getconn` comes to at each attempt,
-- and whether `putconn` raises then. Delays are in milliseconds.
pub mod Laws
mod Tests
use finna_app.Prelude.{ℕ, zero, suc, ◌+◌, ◌-◌, ◌*◌, ◌^◌, Bool, eqb, if◌then◌else◌}
use finna_app.Python.Try.{Try, ok, raise, pool_timeout, db_error, runtime_error}

-- A connection that is open, one that is closed, none at all, `PoolTimeout`, another `psycopg.Error`.
pub data Got : Type 0 where
  fresh : ℕ → Got
  stale absent timed_out failed : Got

-- The connections that were taken from the pool and not handed back, and the time spent asleep.
pub record PoolUse : Type 0 where
  pub taken : ℕ
  pub waited : ℕ

abbrev pub max_retries : ℕ
max_retries = 3

abbrev pub base_delay : ℕ
base_delay = 100

abbrev pub Reply : Type 0
Reply = Try ℕ × PoolUse

-- The handler of `PoolTimeout`, and the attempts that are left.
unfoldable pub on_timeout : ℕ → (PoolUse → Reply) → PoolUse → Reply
on_timeout attempt next u =
    if eqb attempt (max_retries - 1)
    then (raise pool_timeout, u)
    else next (record u { waited = u.waited + base_delay * 2 ^ attempt })

-- One attempt. A stale connection is handed back; where that raises, it stays taken.
unfoldable pub attempted : Bool → ℕ → (PoolUse → Reply) → Got → PoolUse → Reply
unfolding on_timeout
attempted put attempt next (fresh conn) u = (ok conn, record u { taken = suc u.taken })
attempted put attempt next stale u =
    on_timeout attempt next (if put then u else record u { taken = suc u.taken })
attempted put attempt next absent u = on_timeout attempt next u
attempted put attempt next timed_out u = on_timeout attempt next u
attempted put attempt next failed u = (raise db_error, u)

module _ (getconn : ℕ → Got) (puts : ℕ → Bool) where
  unfoldable pub attempts_from : ℕ → ℕ → PoolUse → Reply
  unfolding attempted
  attempts_from zero attempt u = (raise runtime_error, u)
  attempts_from (suc rest) attempt u =
      attempted (puts attempt) attempt (attempts_from rest (suc attempt)) (getconn attempt) u

  -- `get_connection`
  unfoldable pub get_connection : PoolUse → Reply
  unfolding attempts_from
  get_connection u = attempts_from max_retries 0 u
