-- ===== src/Database.antt =====
-- Database access: backend/app/api/db.py and backend/app/api/queries/base.py. The server is a state
-- `S`, a statement a function of it that may raise. `putconn` is the pool's: what it makes of a
-- connection that is handed back.
pub mod Laws
pub mod Pool
use finna_app.Prelude.{Option}
use finna_app.Python.Try.{Try, ok, raise}

-- A connection: what is committed, and what its open transaction sees.
pub record Session (S : Type 0) : Type 0 where
  pub committed : S
  pub working : S

abbrev pub connected : {S : Type 0} → S → Session S
connected s = record { committed = s; working = s }

unfoldable pub commit : {S : Type 0} → Session S → Session S
commit c = record c { committed = c.working }

unfoldable pub rollback : {S : Type 0} → Session S → Session S
rollback c = record c { working = c.committed }

abbrev pub Statement : Type 0 → Type 0 → Type 0
Statement S A = S → Try (A × S)

module _ {S A : Type 0} (putconn : Session S → Session S) (statement : Statement S A) where
  read_back : Try (A × S) → Session S → Try A × Session S
  unfolding rollback
  read_back (ok (a, s)) c = (ok a, putconn (record c { working = s }))
  read_back (raise e) c = (raise e, putconn (rollback c))

  -- `query_one`, `query_all`: run, fetch, hand the connection back.
  unfoldable pub query : Session S → Try A × Session S
  unfolding read_back
  query c = read_back (statement c.working) c

  write_back : Try (A × S) → Session S → Try A × Session S
  unfolding commit rollback
  write_back (ok (a, s)) c = (ok a, putconn (commit (record c { working = s })))
  write_back (raise e) c = (raise e, putconn (rollback c))

  -- `execute`, `insert_and_return`: run, commit, hand the connection back.
  unfoldable pub execute : Session S → Try A × Session S
  unfolding write_back
  execute c = write_back (statement c.working) c
