-- ===== src/Auth/RateLimit.antt =====
-- `_check_rate_limit` of backend/app/api/routes/oidc_auth.py (the same function stands in
-- oidc_device_auth.py): a log of the attempts of each address in a sliding window.
pub mod Window
use finna_app.Prelude.{
  ℕ, ◌-◌, String, Bool, true, false, Option, none, some, List, [], ◌∷◌, ◌++◌, ltb, leb,
  if◌then◌else◌, length, keep,
}
use finna_app.Prelude.Dict.{Dict, lookup, insert}

-- The attempts that are less than `window` old.
abbrev pub live : ℕ → ℕ → List ℕ → List ℕ
live window now attempts = keep (λ t. ltb (now - t) window) attempts

abbrev attempts_of : Option (List ℕ) → List ℕ
attempts_of none = []
attempts_of (some attempts) = attempts

-- One address: whether it is limited, and its log afterwards. The clock is monotonic, so the
-- difference never goes below 0.
unfoldable pub admit : ℕ → ℕ → ℕ → List ℕ → Bool × List ℕ
admit max_attempts window now attempts =
    let recent = live window now attempts in
    if leb max_attempts (length recent) then (true, recent) else (false, recent ++ now ∷ [])

unfoldable pub check_rate_limit : String → Dict (List ℕ) → ℕ → ℕ → ℕ → Bool × Dict (List ℕ)
check_rate_limit ip store max_attempts window now =
    let (limited, attempts) = admit max_attempts window now (attempts_of (lookup ip store)) in
    (limited, insert ip attempts store)
