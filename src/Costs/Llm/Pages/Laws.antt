-- ===== src/Costs/Llm/Pages/Laws.antt =====
-- When the loop over the pages ends, and what it returns.
use finna_app.Prelude.{
  ℕ, zero, suc, ◌+◌, ◌≤◌, ◌<◌, ◌≡◌, refl, sym, ap, ◌∙◌, Bool, true, false, some, arith, Bool-cases,
  subst, ltb→lt, inl, inr, if◌then◌else◌, ltb,
}
use finna_app.Python.Value.{Value, obj, arr, Items, nil, Fields, get, truthy, or_else, Builtins}
use finna_app.Python.Try.{Exc, Try, ok, raise, ◌>>=◌}
use finna_app.Costs.Llm.Pages.{
  Proxy, fetch_page, append_rows, iterate, count, Verdict, stop, go, was_last, judge_page, turn,
  spend_logs_from, fetch_spend_logs,
}

-- A turn that does not go on.
abbrev pub Ends : Try Verdict → Type 0
Ends (ok (go vs)) = ⊥
Ends _ = Unit

module _ (py : Builtins) (page_size : ℕ) (proxy : Proxy) where
  spend_logs_from-raise :
      (fuel page : ℕ) (rows : Items) (e : Exc)
      → turn py page_size proxy page ≡ raise e
      → spend_logs_from py page_size proxy (suc fuel) page rows ≡ some (raise e)
  unfolding spend_logs_from
  spend_logs_from-raise fuel page rows e h = rw (h, spend_logs_from) refl

  spend_logs_from-stop :
      (fuel page : ℕ) (rows vs : Items)
      → turn py page_size proxy page ≡ ok (stop vs)
      → spend_logs_from py page_size proxy (suc fuel) page rows ≡ some (ok (append_rows rows vs))
  unfolding spend_logs_from
  spend_logs_from-stop fuel page rows vs h = rw (h, spend_logs_from) refl

  spend_logs_from-go :
      (fuel page : ℕ) (rows vs : Items)
      → turn py page_size proxy page ≡ ok (go vs)
      → spend_logs_from py page_size proxy (suc fuel) page rows
        ≡ spend_logs_from py page_size proxy fuel (suc page) (append_rows rows vs)
  unfolding spend_logs_from
  spend_logs_from-go fuel page rows vs h = rw (h, spend_logs_from) refl

  turn-returns :
      (fuel page last : ℕ) (rows : Items) (t : Try Verdict)
      → turn py page_size proxy page ≡ t
      → Ends (turn py page_size proxy last)
      → page ≤ last
      → ((more : Items)
          → suc page ≤ last
          → (result : Try Items) × (spend_logs_from py page_size proxy fuel (suc page) more
              ≡ some result))
      → (result : Try Items) × (spend_logs_from py page_size proxy (suc fuel) page rows
          ≡ some result)
  turn-returns fuel page last rows (raise e) h ends low later =
      (raise e, spend_logs_from-raise fuel page rows e h)
  turn-returns fuel page last rows (ok (stop vs)) h ends low later =
      (ok (append_rows rows vs), spend_logs_from-stop fuel page rows vs h)
  turn-returns fuel page last rows (ok (go vs)) h ends low later =
      elim (Bool-cases (ltb page last)) [
        | inl less ↦
            let (result, e) = later (append_rows rows vs) (omega (arith, ltb→lt page last less)) in
            (result, spend_logs_from-go fuel page rows vs h ∙ e)
        | inr same ↦
            let at_last : page ≡ last = ground arith in
            let absurd : ⊥ = subst Ends (ap (turn py page_size proxy) (sym at_last) ∙ h) ends in
            elim absurd [ ]
      ]

  spend_logs_from-returns :
      (fuel page last : ℕ) (rows : Items)
      → Ends (turn py page_size proxy last)
      → page ≤ last
      → last < page + fuel
      → (result : Try Items) × (spend_logs_from py page_size proxy fuel page rows ≡ some result)
  spend_logs_from-returns zero page last rows ends low high =
      let absurd : ⊥ = omega (arith, low, high) in elim absurd [ ]
  spend_logs_from-returns (suc fuel) page last rows ends low high =
      turn-returns fuel page last rows (turn py page_size proxy page) refl ends low
        (λ (more : Items) (further : suc page ≤ last).
          spend_logs_from-returns fuel (suc page) last more ends further (omega (arith, high)))

  abbrev pub total_of : Fields → Value
  total_of payload = or_else (get payload "total_pages") (get payload "totalPages")

  abbrev pub rows_in : Fields → Value
  rows_in payload = or_else (or_else (get payload "data") (get payload "logs")) (arr nil)

  when_read-Ends :
      (rows : Try Items) (last : Try Bool)
      → last ≡ ok true
      → Ends (
          rows >>= (λ (vs : Items). last >>= (λ (b : Bool).
            ok (if b then stop vs else (if ltb (count vs) page_size then stop vs else go vs)))))
  when_read-Ends (raise e) last h = tt
  when_read-Ends (ok vs) (ok true) h = tt
  when_read-Ends (ok vs) (ok false) h = cc
  when_read-Ends (ok vs) (raise e) h = cc

  when-Ends : (b : Bool) (t : Try Verdict) → Ends t → Ends (if b then t else ok (stop nil))
  when-Ends true t h = h
  when-Ends false t h = tt

  judge_page-Ends :
      (payload : Fields) (page : ℕ)
      → was_last py page_size (total_of payload) page ≡ ok true
      → Ends (judge_page py page_size (obj payload) page)
  unfolding judge_page
  judge_page-Ends payload page h =
      when-Ends (truthy (rows_in payload)) _ (
        when_read-Ends (iterate (rows_in payload)) (was_last py page_size (total_of payload) page)
          h)

  -- Where the page `last` can be read, within three attempts, and says that there are no more pages than
  -- that, the loop ends: with fuel for `last` pages it has a result, whatever the proxy answers before.
  pub fetch_spend_logs-returns :
      (fuel last : ℕ) (payload : Fields)
      → fetch_page proxy last ≡ ok (obj payload)
      → was_last py page_size (total_of payload) last ≡ ok true
      → 1 ≤ last
      → last ≤ fuel
      → (result : Try Items) × (fetch_spend_logs py page_size proxy fuel ≡ some result)
  unfolding fetch_spend_logs turn
  fetch_spend_logs-returns fuel last payload fetched is_last low high =
      spend_logs_from-returns fuel 1 last nil
        (subst (λ (p : Try Value). Ends (p >>= (λ (v : Value). judge_page py page_size v last)))
          (sym fetched) (judge_page-Ends payload last is_last))
        low (omega (arith, high))

  -- The rows of `n` pages from a page on, after those so far.
  abbrev pub gathered : (ℕ → Items) → ℕ → ℕ → Items → Items
  gathered rows_of page zero rows = rows
  gathered rows_of page (suc n) rows =
      gathered rows_of (suc page) n (append_rows rows (rows_of page))

  spend_logs_from-gathered :
      (rows_of : ℕ → Items) (n fuel page : ℕ) (rows vs : Items)
      → n < fuel
      → ((p : ℕ) → page ≤ p → p < page + n → turn py page_size proxy p ≡ ok (go (rows_of p)))
      → turn py page_size proxy (page + n) ≡ ok (stop vs)
      → spend_logs_from py page_size proxy fuel page rows
        ≡ some (ok (append_rows (gathered rows_of page n rows) vs))
  spend_logs_from-gathered rows_of n zero page rows vs enough goes stops =
      let absurd : ⊥ = omega (arith, enough) in elim absurd [ ]
  spend_logs_from-gathered rows_of zero (suc fuel) page rows vs enough goes stops =
      let here : page ≡ page + 0 = omega arith in
      spend_logs_from-stop fuel page rows vs (ap (turn py page_size proxy) here ∙ stops)
  spend_logs_from-gathered rows_of (suc n) (suc fuel) page rows vs enough goes stops =
      let there : suc page + n ≡ page + suc n = omega arith in
      spend_logs_from-go fuel page rows (rows_of page) (goes page (omega arith) (omega arith))
      ∙ spend_logs_from-gathered rows_of n fuel (suc page) (append_rows rows (rows_of page)) vs
          (omega (arith, enough))
          (λ (p : ℕ) (low : suc page ≤ p) (high : p < suc page + n).
            goes p (omega (arith, low)) (omega (arith, high)))
          (ap (turn py page_size proxy) there ∙ stops)

  -- Where the pages 1 to `n` go on and the page after them stops the loop, the rows of all of them are
  -- returned, in the order of the pages, and none of a later page: with any fuel above `n`.
  pub fetch_spend_logs-gathered :
      (rows_of : ℕ → Items) (n fuel : ℕ) (vs : Items)
      → n < fuel
      → ((p : ℕ) → 1 ≤ p → p < 1 + n → turn py page_size proxy p ≡ ok (go (rows_of p)))
      → turn py page_size proxy (1 + n) ≡ ok (stop vs)
      → fetch_spend_logs py page_size proxy fuel
        ≡ some (ok (append_rows (gathered rows_of 1 n nil) vs))
  unfolding fetch_spend_logs
  fetch_spend_logs-gathered rows_of n fuel vs enough goes stops =
      spend_logs_from-gathered rows_of n fuel 1 nil vs enough goes stops

  short-stops :
      (page : ℕ) (payload : Fields) (vs : Items) (b : Bool)
      → fetch_page proxy page ≡ ok (obj payload)
      → truthy (rows_in payload) ≡ true
      → iterate (rows_in payload) ≡ ok vs
      → was_last py page_size (total_of payload) page ≡ ok b
      → count vs < page_size
      → turn py page_size proxy page ≡ ok (stop vs)
  unfolding turn judge_page
  short-stops page payload vs b fetched has_rows read known short =
      ap (λ (p : Try Value). p >>= (λ (v : Value). judge_page py page_size v page)) fetched
      ∙ ap
          (λ (t : Bool).
            if t
            then (iterate (rows_in payload) >>= (λ (rows : Items).
                was_last py page_size (total_of payload) page >>= (λ (last : Bool). ok (
                  if last
                  then stop rows
                  else (if ltb (count rows) page_size then stop rows else go rows)))))
            else ok (stop nil))
          has_rows
      ∙ ap
          (λ (r : Try Items). r >>= (λ (rows : Items).
            was_last py page_size (total_of payload) page >>= (λ (last : Bool). ok (
              if last
              then stop rows
              else (if ltb (count rows) page_size then stop rows else go rows)))))
          read
      ∙ ap
          (λ (l : Try Bool). l >>= (λ (last : Bool).
            ok (if last then stop vs else (if ltb (count vs) page_size then stop vs else go vs))))
          known
      ∙ ground (arith, short)

  -- A page that can be read, has rows, and fewer than the page size stops the loop, whatever number of
  -- pages it tells of: where it is the first page, its rows are all that is returned.
  pub fetch_spend_logs_truncates :
      (fuel : ℕ) (payload : Fields) (vs : Items) (b : Bool)
      → 0 < fuel
      → fetch_page proxy 1 ≡ ok (obj payload)
      → truthy (rows_in payload) ≡ true
      → iterate (rows_in payload) ≡ ok vs
      → was_last py page_size (total_of payload) 1 ≡ ok b
      → count vs < page_size
      → fetch_spend_logs py page_size proxy fuel ≡ some (ok vs)
  unfolding append_rows
  fetch_spend_logs_truncates fuel payload vs b some_fuel fetched has_rows read known short =
      fetch_spend_logs-gathered (λ (p : ℕ). nil) 0 fuel vs some_fuel
        (λ (p : ℕ) (low : 1 ≤ p) (high : p < 1 + 0).
          elim (let absurd : ⊥ = omega (arith, low, high) in absurd) [ ])
        (short-stops 1 payload vs b fetched has_rows read known short)
      ∙ refl
