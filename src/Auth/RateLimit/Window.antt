-- ===== src/Auth/RateLimit/Window.antt =====
-- The limit holds in every window, for each address by itself.
use finna_app.Prelude.{
  ℕ, ◌+◌, ◌-◌, ◌≤◌, ◌≡◌, refl, String, Bool, not, ◌&&◌, List, [], ◌∷◌, ◌++◌, arith, ltb, leb, ◌==◌,
  eq_iff, if◌then◌else◌, length, keep, length-append, length-keep, Bool-cases, inl, inr,
}
use finna_app.Prelude.Dict.{Dict, lookup, lookup-insert}
use finna_app.Auth.RateLimit.{live, admit, attempts_of, check_rate_limit}

abbrev pub count_live : ℕ → ℕ → List ℕ → ℕ
count_live window now ts = length (live window now ts)

keep-append :
    (p : ℕ → Bool) (xs ys : List ℕ)
    → length (keep p (xs ++ ys)) ≡ length (keep p xs) + length (keep p ys)
keep-append p [] ys = omega arith
keep-append p (x ∷ xs) ys = ground (arith, keep-append p xs ys)

-- What has left the window at one time is outside it later.
count_live-live :
    (window now later : ℕ) (ts : List ℕ)
    → now ≤ later
    → count_live window later (live window now ts) ≡ count_live window later ts
count_live-live window now later [] h = refl
count_live-live window now later (t ∷ ts) h = ground (arith, count_live-live window now later ts h)

module _ (max_attempts window : ℕ) where
  -- Requests of many addresses, in the order of time: which times of `ip` were admitted.
  pub admissions : String → List (String × ℕ) → Dict (List ℕ) → List ℕ → List ℕ
  admissions ip [] store admitted = admitted
  admissions ip ((a, now) ∷ rest) store admitted =
      let (limited, store') = check_rate_limit a store max_attempts window now in
      admissions ip rest store' (if a == ip && not limited then admitted ++ now ∷ [] else admitted)

  -- The times do not fall, from `now` on.
  abbrev pub IsMonotone : ℕ → List (String × ℕ) → Type 0
  IsMonotone now [] = Unit
  IsMonotone now ((a, t) ∷ rest) = (now ≤ t) × IsMonotone t rest

  abbrev pub last_time : ℕ → List (String × ℕ) → ℕ
  last_time now [] = now
  last_time now ((a, t) ∷ rest) = last_time t rest

  record Inv (now : ℕ) (log admitted : List ℕ) : Type 0 where
    bounded : length log ≤ max_attempts
    faithful : (t : ℕ) → now ≤ t → count_live window t admitted ≡ count_live window t log

  admit-Inv :
      (now next : ℕ) (log admitted : List ℕ)
      → now ≤ next
      → Inv now log admitted
      → Inv next
          (admit max_attempts window next log).1
          (if not (admit max_attempts window next log).0 then admitted ++ next ∷ [] else admitted)
  unfolding admit
  admit-Inv now next log admitted h v =
      elim (Bool-cases (leb max_attempts (length (live window next log)))) [
        | inl full ↦ rw full (record {
          bounded = omega (arith, length-keep (λ t. ltb (next - t) window) log, v.bounded);
          faithful = λ t le.
              omega (arith, v.faithful t (omega arith), count_live-live window next t log le);
        })
        | inr room ↦ rw room (record {
          bounded = ground (arith, length-append (live window next log) (next ∷ []));
          faithful = λ t le. omega (
            arith,
            v.faithful t (omega arith),
            count_live-live window next t log le,
            keep-append (λ u. ltb (t - u) window) admitted (next ∷ []),
            keep-append (λ u. ltb (t - u) window) (live window next log) (next ∷ []),
          );
        })
      ]

  later-Inv :
      (now next : ℕ) (log admitted : List ℕ)
      → now ≤ next
      → Inv now log admitted
      → Inv next log admitted
  later-Inv now next log admitted h v = record {
    bounded = v.bounded;
    faithful = λ t le. v.faithful t (omega arith);
  }

  abbrev log_of : String → Dict (List ℕ) → List ℕ
  log_of ip store = attempts_of (lookup ip store)

  log_of-check :
      (ip a : String) (store : Dict (List ℕ)) (now : ℕ)
      → log_of ip (check_rate_limit a store max_attempts window now).1
        ≡ (if a == ip then (admit max_attempts window now (log_of a store)).1 else log_of ip store)
  unfolding check_rate_limit
  log_of-check ip a store now =
      ground (arith, lookup-insert a ip (admit max_attempts window now (log_of a store)).1 store)

  step-Inv :
      (ip a : String) (store : Dict (List ℕ)) (now next : ℕ) (admitted : List ℕ)
      → now ≤ next
      → Inv now (log_of ip store) admitted
      → Inv next (log_of ip (check_rate_limit a store max_attempts window next).1) (
          if a == ip && not (check_rate_limit a store max_attempts window next).0
          then admitted ++ next ∷ []
          else admitted)
  unfolding check_rate_limit
  step-Inv ip a store now next admitted h v = elim (Bool-cases (a == ip)) [
    | inl same ↦
        let e : a ≡ ip = (eq_iff a ip).0 same in
        rw (log_of-check ip a store next, same)
          (rw e (admit-Inv now next (log_of ip store) admitted h v))
    | inr other ↦
        rw (log_of-check ip a store next, other) (later-Inv now next (log_of ip store) admitted h v)
  ]

  admissions-Inv :
      (ip : String) (now : ℕ) (requests : List (String × ℕ)) (store : Dict (List ℕ))
      (admitted : List ℕ)
      → IsMonotone now requests
      → Inv now (log_of ip store) admitted
      → (log : List ℕ) × Inv (last_time now requests) log (admissions ip requests store admitted)
  unfolding admissions
  admissions-Inv ip now [] store admitted m v = (log_of ip store, v)
  admissions-Inv ip now ((a, t) ∷ rest) store admitted m v =
      admissions-Inv ip t rest (check_rate_limit a store max_attempts window t).1 _ m.1
        (step-Inv ip a store now t admitted m.0 v)

  -- However often any addresses try, at times that do not fall, at most `max_attempts` of the
  -- admitted attempts of one address lie in the window that ends at any time from the last attempt on.
  pub admissions_limit :
      (ip : String) (start t : ℕ) (requests : List (String × ℕ))
      → IsMonotone start requests
      → last_time start requests ≤ t
      → count_live window t (admissions ip requests [] []) ≤ max_attempts
  unfolding lookup
  admissions_limit ip start t requests m le =
      let (log, v) =
        admissions-Inv ip start requests [] [] m
          (record { bounded = omega arith; faithful = λ u _. refl }) in
      omega (arith, v.faithful t le, v.bounded, length-keep (λ u. ltb (t - u) window) log)
