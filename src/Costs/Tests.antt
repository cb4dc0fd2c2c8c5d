-- ===== src/Costs/Tests.antt =====
-- The LLM extractor at concrete inputs.
use finna_app.Prelude.{
  subst, eqb, if◌then◌else◌, ℕ, ◌≡◌, refl, ◌≤◌, ◌<◌, arith, true, false, none, some, [], ◌∷◌,
}
use finna_app.Python.Decimal.{is_zero, truncate, of_nat}
use finna_app.Python.Value.{
  truthy, str, num, arr, obj, Items, nil, cons, Fields, end, field, Builtins, to_int, get_or,
}
use finna_app.Python.Try.{Try, ok, raise, db_error}
use finna_app.Costs.Record.{CostRecord, insert_many}
use finna_app.Costs.Llm.{record_of, normalize_row, llm_record, Texts, normalize_litellm_records}
use finna_app.Costs.Llm.Pages.{
  count, iterate, judge_page, as_payload, append_rows, turn, was_last, fetch_page, Proxy, stop, go,
  fetch_spend_logs,
}
use finna_app.Costs.Llm.Pages.Laws.{
  gathered, fetch_spend_logs-returns, fetch_spend_logs-gathered, fetch_spend_logs_truncates,
}
use finna_app.Costs.Llm.Insert.{success, extract_costs, insert_records, Settings, Store}
use finna_app.Costs.Llm.Insert.Laws.{insert_records-retried}
use finna_app.Costs.Llm.Insert.Run.{extract_costs-stored}

abbrev py : Builtins
py = record {
  parse_float = λ s. none;
  parse_int = λ s. none;
  is_negative_int = λ s. false;
  repr = λ v. "?";
  dumps = λ v. "?";
  strptime = λ s t. none;
  sha256 = λ s. s;
}

abbrev tx : Texts
tx = record {
  fromisoformat = λ s. some 7;
  decimal = λ s. some (of_nat 2);
  loads = λ s. none;
  strip = λ s. s;
  replace = λ s a b. s;
  join = λ ss. "joined";
}

abbrev log_row : Fields
log_row =
    field "request_id" (str "r1") (field "spend" (num (of_nat 2)) (field "startTime" (str "t") end))

abbrev page_of : Fields
page_of = field "data" (arr (cons (obj log_row) nil)) (field "total_pages" (num (of_nat 2)) end)

-- A proxy that gives one row for each page, of two, and fails at the first attempt.
abbrev proxy : Proxy
proxy page attempt = if eqb attempt 1 then raise db_error else ok (obj page_of)

fetched : (page : ℕ) → fetch_page proxy page ≡ ok (obj page_of)
unfolding fetch_page as_payload
fetched page = refl

last-page : was_last py 1 (num (of_nat 2)) 2 ≡ ok true
unfolding was_last to_int truncate truthy is_zero
last-page = refl

fetch_spend_logs-returns_example :
    (result : Try Items) × (fetch_spend_logs py 1 proxy 2 ≡ some result)
unfolding truthy get_or
fetch_spend_logs-returns_example =
    fetch_spend_logs-returns py 1 proxy 2 2 page_of (fetched 2) last-page (omega arith)
      (omega arith)

abbrev one_row : Items
one_row = cons (obj log_row) nil

first-page : (p : ℕ) → 1 ≤ p → p < 2 → turn py 1 proxy p ≡ ok (go one_row)
unfolding turn fetch_page as_payload judge_page iterate was_last to_int truncate truthy is_zero
    count get_or
first-page p low high =
    let one : 1 ≡ p = omega (arith, low, high) in
    subst (λ (q : ℕ). turn py 1 proxy q ≡ ok (go one_row)) one refl

second-page : turn py 1 proxy 2 ≡ ok (stop one_row)
unfolding turn fetch_page as_payload judge_page iterate was_last to_int truncate truthy is_zero
    count get_or
second-page = refl

fetch_spend_logs-gathered_example :
    fetch_spend_logs py 1 proxy 5
    ≡ some (ok (append_rows (gathered py 1 proxy (λ (p : ℕ). one_row) 1 1 nil) one_row))
fetch_spend_logs-gathered_example =
    fetch_spend_logs-gathered py 1 proxy (λ (p : ℕ). one_row) 1 5 one_row (omega arith) first-page
      second-page

first-last : was_last py 100 (num (of_nat 2)) 1 ≡ ok false
unfolding was_last to_int truncate truthy is_zero
first-last = refl

fetch_spend_logs_truncates_example : fetch_spend_logs py 100 proxy 9 ≡ some (ok one_row)
unfolding truthy get_or iterate count
fetch_spend_logs_truncates_example =
    fetch_spend_logs_truncates py 100 proxy 9 page_of one_row false (omega arith) (fetched 1) refl
      refl first-last (omega arith)

abbrev rows : Items
rows = one_row

abbrev made : CostRecord
made = llm_record py tx none log_row (str "r1") (of_nat 2) 7 0 0 0

normalized : normalize_litellm_records py tx none rows ≡ ok (made ∷ [])
unfolding normalize_litellm_records normalize_row record_of truthy get_or to_int
normalized = refl

abbrev settings : Settings
settings = record { base_url = true; master_key = true; pg_dsn = true; task_tag_prefix = none }

abbrev empty : Store
empty = record { records = []; health = record { has_columns = true; writable = true; row = none } }

abbrev run : Try ℕ × Store
run = extract_costs py tx (λ (j : ℕ). true) settings 500 (ok rows) empty

extract_costs-stored_example :
    (run.0 ≡ ok 1)
    × (run.1.records ≡ insert_many (made ∷ []) [])
    × (run.1.health.row
        ≡ some (record { status = success; records_extracted = 1; error_message = none }))
extract_costs-stored_example =
    extract_costs-stored py tx (λ (j : ℕ). true) settings 499 rows empty made [] refl refl refl
      (λ (j : ℕ). refl) refl refl normalized

abbrev other : CostRecord
other = record made { record_id = "llm:r2" }

insert_records-retried_example :
    insert_records
      (λ (j : ℕ). true)
      (made ∷ other ∷ [])
      2
      (insert_records (λ (j : ℕ). eqb j 0) (made ∷ other ∷ []) 1 []).1
    ≡ (ok 2, insert_many (made ∷ other ∷ []) [])
insert_records-retried_example =
    insert_records-retried (λ (j : ℕ). eqb j 0) (λ (j : ℕ). true) (made ∷ other ∷ []) 1 1 []
      (λ (j : ℕ). refl)
