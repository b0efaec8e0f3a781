-- ===== src/Tests/Retry.antt =====
-- UTL_RUN_WITH_RETRY on a call that fails twice.
use sinetek_rtsx.Base.{ℕ, suc, ◌≤◌, ◌≡◌, ◌⊎◌, none, some, eio, Code, ltb, if◌then◌else◌}
use sinetek_rtsx.Retry.{Fails, run_with_retry, run_with_retry_lem}

unfoldable flaky : ℕ → Code × ℕ
flaky calls = if ltb calls 2 then (some eio, suc calls) else (none, calls)

run_with_retry_lem_example :
    (n : ℕ) × (t : ℕ) × Fails flaky n 0 t
    × (n ≤ 3)
    × (((flaky t).0 ≡ none) ⊎ (n ≡ 3))
    × (run_with_retry 3 flaky 0 ≡ flaky t)
run_with_retry_lem_example = run_with_retry_lem flaky 3 0
