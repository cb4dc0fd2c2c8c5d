-- ===== src/Database/Laws.antt =====
-- What the helpers leave in the database, with a pool that rolls a returned connection back.
use finna_app.Prelude.{◌≡◌, arith, inl, inr}
use finna_app.Python.Try.{ok, raise, Exc, Try-cases}
use finna_app.Database.{Session, connected, Statement, query, execute}

-- The pool's documented treatment of a connection that comes back: an open transaction is rolled
-- back.
abbrev pub RollsBack : (S : Type 0) → (Session S → Session S) → Type 0
RollsBack S putconn = (c : Session S) → putconn c ≡ connected c.committed

module _ {S A : Type 0} (putconn : Session S → Session S) (statement : Statement S A)
    (pool : RollsBack S putconn) where
  pub query-committed : (s : S) → (query putconn statement (connected s)).1 ≡ connected s
  unfolding query
  query-committed s = elim (Try-cases (statement s)) [
    | inl ((a, t), e) ↦ rw e (pool (record { committed = s; working = t }))
    | inr (x, e) ↦ rw e (pool (connected s))
  ]

  pub execute-committed :
      (s t : S) (a : A)
      → statement s ≡ ok (a, t)
      → execute putconn statement (connected s) ≡ (ok a, connected t)
  unfolding execute
  execute-committed s t a e = rw e (ground (arith, pool (connected t)))

  pub execute-raised :
      (s : S) (x : Exc)
      → statement s ≡ raise x
      → execute putconn statement (connected s) ≡ (raise x, connected s)
  unfolding execute
  execute-raised s x e = rw e (ground (arith, pool (connected s)))

  -- What a statement keeps, `execute` keeps, in the database that it leaves committed.
  pub execute-keeps :
      (P : S → Type 0) (s : S)
      → P s
      → ((a : A) (t : S) → statement s ≡ ok (a, t) → P t)
      → P (execute putconn statement (connected s)).1.committed
  execute-keeps P s before after = elim (Try-cases (statement s)) [
    | inl ((a, t), e) ↦ rw (execute-committed s t a e) (after a t e)
    | inr (x, e) ↦ rw (execute-raised s x e) before
  ]
