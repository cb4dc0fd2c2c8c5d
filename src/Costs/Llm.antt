-- ===== src/Costs/Llm.antt =====
-- extractors/litellm_cost.py: what is read of a row of the spend log, and the record that it becomes.
-- The pages, the insertion and the run are the child modules.
pub mod Laws
pub mod Pages
pub mod Insert
use finna_app.Prelude.{
  ℕ, ◌+◌, String, ◌++ₛ◌, Bool, true, false, Option, none, some, List, [], ◌∷◌, ◌==◌, if◌then◌else◌,
  codes, is_prefix, size, first_chars, after_chars,
}
use finna_app.Prelude.Dict.{Dict, insert}
use finna_app.Python.Decimal.{Decimal, zero_decimal, of_nat, less}
use finna_app.Python.Value.{
  Value, null, str, arr, obj, Items, nil, cons, Fields, get, truthy, or_else, num, Builtins, to_str,
  to_int,
}
use finna_app.Python.Try.{Try, ok, raise, attribute_error, ◌>>=◌}
use finna_app.Costs.Record.{CostRecord, llm, llm_service}

-- The interpreter's functions that this extractor uses beside the shared ones: `datetime.fromisoformat`
-- (a naive time is at UTC), `Decimal` of a text that is a finite number, `json.loads`, `str.strip`,
-- `str.replace` and `",".join`.
pub record Texts : Type 0 where
  pub fromisoformat : String → Option ℕ
  pub decimal : String → Option Decimal
  pub loads : String → Option Value
  pub strip : String → String
  pub replace : String → String → String → String
  pub join : List String → String

module _ (py : Builtins) (tx : Texts) where
  -- `_generate_record_id`
  unfoldable pub generate_record_id : String → String
  generate_record_id request_id = first_chars 32 (py.sha256 ("llm:" ++ₛ request_id))

  -- `_hash_api_key`
  unfoldable pub hash_api_key : String → String
  hash_api_key api_key = if api_key == "" then "" else first_chars 16 (py.sha256 api_key)

  -- `_parse_dt`, of a value that was read from JSON
  unfoldable pub parse_dt : Value → Option ℕ
  unfolding to_str
  parse_dt value =
      if truthy value then tx.fromisoformat (tx.replace (to_str py value) "Z" "+00:00") else none

  -- `[str(t) for t in vs if t]`
  unfoldable pub texts : Items → List String
  unfolding to_str
  texts nil = []
  texts (cons v vs) = if truthy v then to_str py v ∷ texts vs else texts vs

  abbrev or_whole : String → Option Value → List String
  or_whole s (some (arr vs)) = texts vs
  or_whole s _ = s ∷ []

  -- `_parse_tags`
  unfoldable pub parse_tags : Value → List String
  unfolding texts
  parse_tags (arr vs) = texts vs
  parse_tags (str raw) = let s = tx.strip raw in if s == "" then [] else or_whole s (tx.loads s)
  parse_tags _ = []

  abbrev or_default : String → String
  or_default s = if s == "" then "default" else s

  -- The first tag with the prefix, without it.
  unfoldable pub task_of : String → List String → String
  task_of prefix [] = "default"
  task_of prefix (t ∷ tags) =
      if is_prefix (codes prefix) (codes t)
      then or_default (after_chars (size prefix) t)
      else task_of prefix tags

  abbrev first_of : List String → String
  first_of [] = "default"
  first_of (t ∷ tags) = t

  -- `_pick_project_id`
  unfoldable pub pick_project_id : List String → Option String → String
  unfolding task_of
  pick_project_id tags none = first_of tags
  pick_project_id tags (some prefix) = if prefix == "" then first_of tags else task_of prefix tags

  abbrev or_zero : Option Decimal → Decimal
  or_zero none = zero_decimal
  or_zero (some d) = d

  -- `_to_decimal`
  unfoldable pub to_decimal : Value → Decimal
  unfolding to_str
  to_decimal null = zero_decimal
  to_decimal v = or_zero (tx.decimal (to_str py v))

  -- `if v: tag_payload[k] = text(v)`
  abbrev put : String → (Value → String) → Value → Dict String → Dict String
  put k text v d = if truthy v then insert k (text v) d else d

  abbrev put_given : String → Value → Dict String → Dict String
  put_given k null d = d
  put_given k v d = insert k (to_str py v) d

  abbrev put_tags : List String → Dict String → Dict String
  put_tags [] d = d
  put_tags (t ∷ tags) d = insert "request_tags" (tx.join (t ∷ tags)) d

  -- `tag_payload`
  unfoldable pub tag_payload : Fields → List String → ℕ → ℕ → Dict String
  unfolding insert to_str hash_api_key
  tag_payload row tags prompt_tokens completion_tokens =
      insert "completion_tokens" (to_str py (num (of_nat completion_tokens))) (
        insert "prompt_tokens" (to_str py (num (of_nat prompt_tokens))) (
          put_tags tags (
            put_given "cache_hit" (get row "cache_hit") (
              put "session_id" (to_str py) (get row "session_id") (
                put "status" (to_str py) (get row "status") (
                  put "api_key_hash" (λ v. hash_api_key (to_str py v)) (get row "api_key")
                    (put "end_user" (to_str py) (get row "end_user") (
                      put "llm_provider" (to_str py) (get row "custom_llm_provider")
                        (put "model_group" (to_str py) (get row "model_group") [])))))))))

  abbrev text_if : Value → Option String
  text_if v = if truthy v then some (to_str py v) else none

  abbrev or_start : ℕ → Option ℕ → ℕ
  or_start start none = start
  or_start start (some end_time) = end_time

  -- The record from the request id, the spend, the start of the use and the three numbers of tokens.
  unfoldable pub llm_record : Option String → Fields → Value → Decimal → ℕ → ℕ → ℕ → ℕ → CostRecord
  unfolding parse_dt to_str parse_tags pick_project_id tag_payload generate_record_id
  llm_record task_tag_prefix row request_id spend usage_start prompt_tokens completion_tokens
        total_tokens =
      let tags = parse_tags (get row "request_tags") in
      let model = to_str py (or_else (get row "model") (str "unknown")) in
      record {
        record_id = generate_record_id (to_str py request_id);
        provider = llm;
        usage_start = usage_start;
        usage_end =
            or_start usage_start (parse_dt (or_else (get row "endTime") (get row "end_time")));
        account_id =
            to_str py (or_else (or_else (get row "user") (get row "user_id")) (str "unknown"));
        project_id = pick_project_id tags task_tag_prefix;
        team = text_if (get row "team_id");
        service_category = llm_service;
        service_name = model;
        resource_id = text_if (get row "session_id");
        region = none;
        charge_type = none;
        cost_usd = spend;
        currency_original = "USD";
        cost_original = spend;
        discount_usd = zero_decimal;
        net_cost_usd = spend;
        usage_quantity = some (of_nat total_tokens);
        usage_unit = some "tokens";
        model_name = some model;
        input_tokens = some prompt_tokens;
        output_tokens = some completion_tokens;
        total_tokens = some total_tokens;
        trace_id = some (to_str py request_id);
        tags = tag_payload row tags prompt_tokens completion_tokens;
      }

  -- The record of a row that is charged, from its request id, its spend and the start of its use.
  unfoldable pub record_of : Option String → Fields → Value → Decimal → ℕ → Try CostRecord
  unfolding llm_record
  record_of task_tag_prefix row request_id spend usage_start = do
    prompt_tokens ← to_int py (or_else (get row "prompt_tokens") (num zero_decimal))
    completion_tokens ← to_int py (or_else (get row "completion_tokens") (num zero_decimal))
    total_tokens ←
        to_int py
          (or_else (get row "total_tokens") (num (of_nat (prompt_tokens + completion_tokens))))
    ok (
        llm_record task_tag_prefix row request_id spend usage_start prompt_tokens completion_tokens
          total_tokens)

  abbrev pub some_record : Try CostRecord → Try (Option CostRecord)
  some_record (ok r) = ok (some r)
  some_record (raise e) = raise e

  abbrev pub with_start :
      Option String → Fields → Value → Decimal → Option ℕ → Try (Option CostRecord)
  with_start task_tag_prefix row request_id spend none = ok none
  with_start task_tag_prefix row request_id spend (some usage_start) =
      some_record (record_of task_tag_prefix row request_id spend usage_start)

  -- One turn of the loop: a row without an id, without a cost or without a start is skipped.
  unfoldable pub normalize_row : Option String → Fields → Try (Option CostRecord)
  unfolding record_of to_decimal parse_dt less
  normalize_row task_tag_prefix row =
      let request_id = or_else (get row "request_id") (get row "id") in
      let spend = to_decimal (get row "spend") in
      if truthy request_id
      then (if less zero_decimal spend
          then with_start task_tag_prefix row request_id spend
              (parse_dt (or_else (get row "startTime") (get row "start_time")))
          else ok none)
      else ok none

  abbrev pub joined : Option CostRecord → List CostRecord → List CostRecord
  joined none records = records
  joined (some r) records = r ∷ records

  -- `normalize_litellm_records`: a row that is no dict has no `get`.
  unfoldable pub normalize_litellm_records : Option String → Items → Try (List CostRecord)
  unfolding normalize_row
  normalize_litellm_records task_tag_prefix nil = ok []
  normalize_litellm_records task_tag_prefix (cons (obj row) rows) = do
    r ← normalize_row task_tag_prefix row
    records ← normalize_litellm_records task_tag_prefix rows
    ok (joined r records)
  normalize_litellm_records task_tag_prefix (cons _ rows) = raise attribute_error
