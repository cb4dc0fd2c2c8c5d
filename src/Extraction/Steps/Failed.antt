-- ===== src/Extraction/Steps/Failed.antt =====
-- What a start of an extractor that raises leaves behind.
use finna_app.Prelude.{
  ◌&&◌, ap, sym, subst, ◌⊎◌, if◌then◌else◌, not, ℕ, ◌≡◌, refl, ◌∙◌, String, Bool, false, Option,
  none, some, arith, ◌==◌, eq_refl, Option-cases, Bool-cases, inl, inr,
}
use finna_app.Prelude.Dict.{lookup, contains, lookup-insert}
use finna_app.Python.Value.{Fields, Value, field}
use finna_app.Python.Try.{Try, ok, raise, Exc, db_error, value_error}
use finna_app.Extraction.Log.{Regex}
use finna_app.Extraction.Runs.{
  new_run, with_type, with_config, or_provider, Runner, Outside, get_extractor_type, insert_run,
  launched, start_run, start_extractor,
}
use finna_app.Extraction.Steps.{Steps, at_start}
use finna_app.Extraction.Steps.Laws.{is_some, Steps-IsValidAt}
use finna_app.Extraction.Steps.Final.{IsOrphan, Steps-IsOrphan}

-- The state is as it was, or the run has a row and nobody that will finish it.
abbrev pub StartFailed : ℕ → String → String → String → Runner → Runner → Type 0
StartFailed now run_id config_id provider s t =
    (t ≡ s)
    ⊎ ((extractor_type : String) × IsOrphan run_id (new_run config_id provider extractor_type now)
          t)

module _ (out : Outside) (now : ℕ) (run_id config_id provider : String) (s : Runner)
    (unregistered : contains run_id s.processes ≡ false)
    (unmonitored : lookup run_id s.monitors ≡ none) where
  launched-StartFailed :
      (t : String) (m : Try (Unit {0})) (e : Exc)
      → (launched m run_id (insert_run run_id (new_run config_id provider t now) s)).0 ≡ raise e
      → StartFailed now run_id config_id provider s
          (launched m run_id (insert_run run_id (new_run config_id provider t now) s)).1
  unfolding insert_run
  launched-StartFailed t (ok u) e h = cc (h)
  launched-StartFailed t (raise x) e h = inr (
    t,
    ground (
      arith,
      lookup-insert run_id run_id (new_run config_id provider t now) s.table,
      eq_refl run_id,
    ),
  )

  start_run-StartFailed :
      (t : String) (config : Fields) (e : Exc)
      → (start_run out now run_id config_id provider t config s).0 ≡ raise e
      → StartFailed now run_id config_id provider s
          (start_run out now run_id config_id provider t config s).1
  unfolding start_run
  start_run-StartFailed t config e h = elim (Bool-cases (out.accepts_insert)) [
    | inl up ↦
        let run : Bool → Try String × Runner = λ b.
          if not b
          then (raise db_error, s)
          else launched (out.launch t provider config) run_id
              (insert_run run_id (new_run config_id provider t now) s) in
        subst (λ (b : Bool). StartFailed now run_id config_id provider s (run b).1) (sym up)
          (launched-StartFailed t (out.launch t provider config) e
            (ap (λ (b : Bool). (run b).0) (sym up) ∙ h))
    | inr down ↦ inl (
        ap
          (λ (b : Bool).
            (if not b
              then (raise db_error, s)
              else launched (out.launch t provider config) run_id
                  (insert_run run_id (new_run config_id provider t now) s)).1)
          down)
  ]

  with_config-StartFailed :
      (t : String) (loaded : Option (Try (Fields × Value))) (e : Exc)
      → (with_config out now run_id config_id provider t loaded s).0 ≡ raise e
      → StartFailed now run_id config_id provider s
          (with_config out now run_id config_id provider t loaded s).1
  with_config-StartFailed t none e h = inl refl
  with_config-StartFailed t (some (raise x)) e h = inl refl
  with_config-StartFailed t (some (ok (config, credential_type))) e h =
      start_run-StartFailed t (field "credential_type" credential_type config) e h

  with_type-StartFailed :
      (r : Try String) (e : Exc)
      → (with_type out now run_id config_id provider r s).0 ≡ raise e
      → StartFailed now run_id config_id provider s
          (with_type out now run_id config_id provider r s).1
  with_type-StartFailed (raise x) e h = inl refl
  with_type-StartFailed (ok t) e h = with_config-StartFailed t (out.load_config config_id) e h

  start_extractor-StartFailed :
      (pg_dsn : String) (extractor_type : Option String) (e : Exc)
      → (start_extractor out now pg_dsn run_id config_id provider extractor_type s).0 ≡ raise e
      → StartFailed now run_id config_id provider s
          (start_extractor out now pg_dsn run_id config_id provider extractor_type s).1
  unfolding start_extractor
  start_extractor-StartFailed pg_dsn extractor_type e h =
      let resolved = get_extractor_type (or_provider extractor_type provider) in
      let run : Bool → Try String × Runner = λ b.
        if b
        then (raise value_error, s)
        else with_type out now run_id config_id provider resolved s in
      elim (Bool-cases (pg_dsn == "")) [
        | inl empty ↦ inl (ap (λ (b : Bool). (run b).1) empty)
        | inr there ↦
            subst (λ (b : Bool). StartFailed now run_id config_id provider s (run b).1) (sym there)
              (with_type-StartFailed resolved e (ap (λ (b : Bool). (run b).0) (sym there) ∙ h))
      ]

unmonitored_run :
    (run_id : String) (s : Runner)
    → (is_some (lookup run_id s.monitors) && not (is_some (lookup run_id s.table))) ≡ false
    → lookup run_id s.table ≡ none
    → lookup run_id s.monitors ≡ none
unmonitored_run run_id s h new = elim (Option-cases (lookup run_id s.monitors)) [
  | inl e ↦ e
  | inr (m, e) ↦ ground (arith, e, new, h)
]

-- A start that raises, in a state that the program can reach and under an id that no row has, changes nothing,
-- or it leaves a row that is running, with no subprocess and no monitor, and that stays so in whatever order
-- other steps follow.
pub start_extractor-fails :
    (re : Regex) (out : Outside) (now : ℕ) (pg_dsn run_id config_id provider : String)
    (extractor_type : Option String) (e : Exc) {s last : Runner}
    → Steps re out at_start s
    → lookup run_id s.table ≡ none
    → (start_extractor out now pg_dsn run_id config_id provider extractor_type s).0 ≡ raise e
    → Steps re out
        (start_extractor out now pg_dsn run_id config_id provider extractor_type s).1
        last
    → ((start_extractor out now pg_dsn run_id config_id provider extractor_type s).1 ≡ s)
      ⊎ ((t : String) × IsOrphan run_id (new_run config_id provider t now) last)
start_extractor-fails re out now pg_dsn run_id config_id provider extractor_type e {s} reached new
      raised later =
    let valid = Steps-IsValidAt re out run_id reached in
    elim (start_extractor-StartFailed out now run_id config_id provider s
      (ground (arith, valid.1, new)) (unmonitored_run run_id s valid.2 new) pg_dsn extractor_type e
      raised) [
        | inl same ↦ inl same
        | inr (t, orphan) ↦ inr (t, Steps-IsOrphan re out run_id _ later orphan)
      ]
