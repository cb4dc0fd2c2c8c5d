-- ===== src/Database/Pool/Tests.antt =====
-- Requests for a connection.
use finna_app.Prelude.{ℕ, zero, suc, ◌≡◌, refl, Bool, true}
use finna_app.Python.Try.{ok, raise, pool_timeout}
use finna_app.Database.Pool.{Got, fresh, stale, timed_out, PoolUse, get_connection}
use finna_app.Database.Pool.Laws.{IsSettled, get_connection-IsSettled}

unfoldable third_time : ℕ → Got
third_time zero = stale
third_time (suc zero) = timed_out
third_time (suc (suc i)) = fresh 7

abbrev takes_back : ℕ → Bool
takes_back i = true

abbrev unused : PoolUse
unused = record { taken = 0; waited = 0 }

get_connection-third_time :
    get_connection third_time takes_back unused ≡ (ok 7, record { taken = 1; waited = 300 })
unfolding get_connection third_time
get_connection-third_time = refl

get_connection-timed_out :
    get_connection (λ i. timed_out) takes_back unused
    ≡ (raise pool_timeout, record { taken = 0; waited = 300 })
unfolding get_connection
get_connection-timed_out = refl

get_connection-IsSettled_example :
    IsSettled third_time takes_back 0 300 (get_connection third_time takes_back unused)
get_connection-IsSettled_example = get_connection-IsSettled third_time takes_back unused (λ i. refl)
