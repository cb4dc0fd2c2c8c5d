-- ===== src/Costs/Llm/Pages.antt =====
-- extractors/litellm_cost.py: the pages of the spend log. The proxy is what each attempt to get a page
-- gives: the JSON of the response, or the exception of the request. The time between attempts is not
-- modelled.
pub mod Laws
use finna_app.Prelude.{
  ◌||◌, ℕ, zero, suc, ◌+◌, String, Bool, true, false, ◌&&◌, Option, none, some, List, [], ◌∷◌,
  if◌then◌else◌, leb, ltb, eqb,
}
use finna_app.Python.Decimal.{of_nat}
use finna_app.Python.Value.{
  Value, null, bool, num, str, arr, obj, Items, nil, cons, Fields, end, field, get, truthy, or_else,
  Builtins, to_int,
}
use finna_app.Python.Try.{Try, ok, raise, type_error, attribute_error, runtime_error, ◌>>=◌}

-- The answer of the proxy to an attempt at a page.
abbrev pub Proxy : Type 0
Proxy = ℕ → ℕ → Try Value

-- A list as a payload of one page.
unfoldable pub as_payload : Value → Value
as_payload (arr rows) = obj (field "data" (arr rows) (field "total_pages" (num (of_nat 1)) end))
as_payload v = v

abbrev or_retry : Try Value → Try Value → Try Value
or_retry (ok v) next = ok v
or_retry (raise e) next = next

-- `_fetch_page`: three attempts, then a RetryError.
unfoldable pub fetch_page : Proxy → ℕ → Try Value
unfolding as_payload
fetch_page proxy page = do
  v ←
      or_retry (proxy page 1)
        (or_retry (proxy page 2) (or_retry (proxy page 3) (raise runtime_error)))
  ok (as_payload v)

unfoldable pub append_rows : Items → Items → Items
append_rows nil vs = vs
append_rows (cons u us) vs = cons u (append_rows us vs)

characters : String → Items
characters String.[] = nil
characters (String.◌∷◌ c s) = cons (str (String.◌∷◌ c "")) (characters s)

keys_of : Fields → Items
keys_of end = nil
keys_of (field k v d) = cons (str k) (keys_of d)

-- What `rows.extend(v)` adds.
unfoldable pub iterate : Value → Try Items
unfolding characters keys_of
iterate (arr vs) = ok vs
iterate (str s) = ok (characters s)
iterate (obj d) = ok (keys_of d)
iterate _ = raise type_error

unfoldable pub count : Items → ℕ
count nil = 0
count (cons v vs) = 1 + count vs

-- What a page comes to: the loop stops with its rows, or goes on.
pub data Verdict : Type 0 where
  stop : Items → Verdict
  go : Items → Verdict

module _ (py : Builtins) (page_size : ℕ) where
  -- `int(total_pages) < 0`, where it is an integer other than zero.
  abbrev is_below_zero : Value → Bool
  is_below_zero (num n) = n.negative
  is_below_zero (str s) = py.is_negative_int s
  is_below_zero _ = false

  -- `total_pages and page >= int(total_pages)`
  unfoldable pub was_last : Value → ℕ → Try Bool
  was_last total_pages page =
      if truthy total_pages
      then (do n ← to_int py total_pages; ok (is_below_zero total_pages || leb n page))
      else ok false

  -- The body of the loop on a payload.
  unfoldable pub judge_page : Value → ℕ → Try Verdict
  unfolding iterate was_last count
  judge_page (obj payload) page =
      let page_rows = or_else (or_else (get payload "data") (get payload "logs")) (arr nil) in
      if truthy page_rows
      then (do
        rows ← iterate page_rows
        last ← was_last (or_else (get payload "total_pages") (get payload "totalPages")) page
        ok (
            if last
            then stop rows
            else (if ltb (count rows) page_size then stop rows else go rows)))
      else ok (stop nil)
  judge_page _ page = raise attribute_error

  unfoldable pub turn : Proxy → ℕ → Try Verdict
  unfolding fetch_page judge_page
  turn proxy page = do payload ← fetch_page proxy page; judge_page payload page

  -- The loop of `fetch_spend_logs` from a page on, with the rows so far; `none` while it is running.
  unfoldable pub spend_logs_from : Proxy → ℕ → ℕ → Items → Option (Try Items)
  unfolding turn append_rows
  spend_logs_from proxy zero page rows = none
  spend_logs_from proxy (suc fuel) page rows = elim (turn proxy page) [
    | raise e ↦ some (raise e)
    | ok (stop vs) ↦ some (ok (append_rows rows vs))
    | ok (go vs) ↦ spend_logs_from proxy fuel (suc page) (append_rows rows vs)
  ]

  unfoldable pub fetch_spend_logs : Proxy → ℕ → Option (Try Items)
  unfolding spend_logs_from
  fetch_spend_logs proxy fuel = spend_logs_from proxy fuel 1 nil
