-- ===== src/Web.antt =====
-- What a handler of the API gives back: a body, an HTTPException, or an exception of another kind.
use finna_app.Prelude.{ℕ}
use finna_app.Python.Try.{Try, ok, raise, Exc}

pub data Response {ℓ} (A : Type ℓ) : Type ℓ where
  body : A → Response A
  http_error : ℕ → Response A
  crash : Exc → Response A

abbrev pub respond {ℓ} : {A : Type ℓ} → Try A → Response A
respond (ok a) = body a
respond (raise e) = crash e
