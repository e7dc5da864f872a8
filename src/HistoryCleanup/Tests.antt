-- ===== src/HistoryCleanup/Tests.antt =====
-- Runs of the job on tables in memory, whose times are days.
use agentest.Shared.{
  ◌-◌, ◌≡◌, refl, true, none, some, [], ◌∷◌, arith, ◌==◌, if◌then◌else◌, is_ok, id_rows,
}
use agentest.OrderKey.{parse_int}
use agentest.HistoryCleanup.{
  HistoryRow, Client, Db, run_history_cleanup, get_history_retention_days,
}
use agentest.HistoryCleanup.Laws.{
  Trimmed, Within, run_history_cleanup_effect, run_history_cleanup-bounds,
}

abbrev client : Client
unfolding id_rows
client = record {
  test_cases = id_rows HistoryRow;
  test_suites = id_rows HistoryRow;
  projects = id_rows HistoryRow;
  minus_days = λ t d. t - d;
}

-- Row k was made on day 100 * k.
abbrev rows : Db client
unfolding id_rows
rows = record {
  test_cases = record {
    keys = 1 ∷ 5 ∷ 9 ∷ [];
    cell = λ k. some (record { id = k; created_at = if k == 1 then 100 else 970; snapshot = 0 });
  };
  test_suites = record { keys = []; cell = λ k. none };
  projects = record { keys = []; cell = λ k. none };
}

-- "90", " 400" and "-3"
days_given : get_history_retention_days (some (57 ∷ 48 ∷ [])) ≡ 90
unfolding get_history_retention_days parse_int
days_given = refl

days_above : get_history_retention_days (some (32 ∷ 52 ∷ 48 ∷ 48 ∷ [])) ≡ 30
unfolding get_history_retention_days parse_int
days_above = refl

days_below : get_history_retention_days (some (45 ∷ 51 ∷ [])) ≡ 30
unfolding get_history_retention_days parse_int
days_below = refl

run_history_cleanup_effect_example :
    let (r, s') = run_history_cleanup client (some (57 ∷ 48 ∷ [])) 1000 rows in
    let cutoff = client.minus_days 1000 (get_history_retention_days (some (57 ∷ 48 ∷ []))) in
    (is_ok r ≡ true)
    × Trimmed client.test_cases cutoff rows.test_cases s'.test_cases
    × Trimmed client.test_suites cutoff rows.test_suites s'.test_suites
    × Trimmed client.projects cutoff rows.projects s'.projects
run_history_cleanup_effect_example =
    run_history_cleanup_effect client (some (57 ∷ 48 ∷ [])) 1000 rows

run_history_cleanup-bounds_example :
    let s' = (run_history_cleanup client none 1000 rows).1 in
    let young = client.minus_days 1000 1 in
    let old = client.minus_days 1000 365 in
    Within client.test_cases young old rows.test_cases s'.test_cases
    × Within client.test_suites young old rows.test_suites s'.test_suites
    × Within client.projects young old rows.projects s'.projects
unfolding id_rows
run_history_cleanup-bounds_example =
    run_history_cleanup-bounds client none 1000 rows (λ t a b le. omega (arith, le))
