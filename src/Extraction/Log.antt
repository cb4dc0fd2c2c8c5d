-- ===== src/Extraction/Log.antt =====
-- What the monitor of backend/app/api/runner.py makes of a subprocess: the status, the count of
-- records, the error message and the sanitized output. `Regex` is the interpreter's `re`.
use finna_app.Prelude.{ℕ, zero, suc, String, ◌++ₛ◌, Option, none, some, List, [], ◌∷◌, ◌++◌}
use finna_app.Python.Try.{Try, ok, raise, Exc, value_error}

-- `re.search(pattern, text).group(1)` and `re.sub(pattern, replacement, text)`, with `str` and `int`
-- of a number and the text of an exception.
pub record Regex : Type 0 where
  pub search : String → String → Option String
  pub sub : String → String → String → String
  pub show : ℕ → String
  pub parse : String → Option ℕ
  pub exc_text : Exc → String

-- `proc.returncode`: an exit code, a signal (below zero), or None while the subprocess runs.
pub data ReturnCode : Type 0 where
  exit_code : ℕ → ReturnCode
  signal : ℕ → ReturnCode
  still_running : ReturnCode

pub data RunStatus : Type 0 where
  running success failed : RunStatus

-- What `_update_run_status` writes beside the time and the output.
pub record Outcome : Type 0 where
  pub status : RunStatus
  pub records_extracted : ℕ
  pub error_message : Option String

module _ (re : Regex) where
  abbrev or_search : Option String → Option String → Option String
  or_search none m = m
  or_search (some g) m = some g

  -- The count of records that a line names.
  unfoldable pub count_in : String → Option String
  count_in line = or_search (re.search "(\\d+)\\s+total\\s+records\\s+inserted" line) (
      or_search (re.search "Inserted\\s+(\\d+)\\s+of\\s+\\d+\\s+records" line)
        (re.search "completed:\\s+(\\d+)\\s+records" line))

  abbrev to_int : String → Try ℕ
  to_int g = elim (re.parse g) [ none ↦ raise value_error | some n ↦ ok n ]

  -- The last line that names a count tells it: the lines come last first.
  unfoldable pub count_records : List String → Try ℕ
  unfolding count_in
  count_records [] = ok 0
  count_records (line ∷ lines) =
      let rest = count_records lines in elim (count_in line) [ none ↦ rest | some g ↦ to_int g ]

  code_text : ReturnCode → String
  code_text (exit_code n) = re.show n
  code_text (signal n) = "-" ++ₛ re.show n
  code_text still_running = "None"

  reversed : List String → List String
  reversed [] = []
  reversed (line ∷ lines) = reversed lines ++ (line ∷ [])

  joined : List String → String
  joined [] = ""
  joined (line ∷ lines) = line ++ₛ joined lines

  abbrev succeeded : Try ℕ → Outcome
  succeeded (ok n) = record { status = success; records_extracted = n; error_message = none }
  succeeded (raise e) = record {
    status = failed;
    records_extracted = 0;
    error_message = some ("Monitor thread error: " ++ₛ re.exc_text e);
  }

  abbrev exited : String → Outcome
  exited code = record {
    status = failed;
    records_extracted = 0;
    error_message = some ("Exit code: " ++ₛ code);
  }

  unfoldable pub outcome : List String → ReturnCode → Outcome
  unfolding count_records code_text reversed
  outcome lines (exit_code zero) = succeeded (count_records (reversed lines))
  outcome lines (exit_code (suc n)) = exited (code_text (exit_code (suc n)))
  outcome lines (signal n) = exited (code_text (signal n))
  outcome lines still_running = exited (code_text still_running)

  -- `_sanitize_log`
  unfoldable pub sanitize_log : String → String
  sanitize_log output =
      let tokens =
        re.sub "Authorization:\\s+Bearer\\s+[^\\s\\n]+" "Authorization: Bearer [REDACTED]" output in
      let plain = re.sub "client_secret=[^\\s&\\n]+" "client_secret=[REDACTED]" tokens in
      let json =
        re.sub "(['\"])client_secret\\1:\\s*['\"]([^'\"]+)['\"]" "\\1client_secret\\1: '[REDACTED]'"
          plain in
      re.sub "(?i)(tenant_?id|subscription_?id)=[a-f0-9\\-]+" "\\1=[REDACTED]" json

  unfoldable pub stored_log : List String → String
  unfolding joined sanitize_log
  stored_log lines = sanitize_log (joined lines)
