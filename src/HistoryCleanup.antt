-- ===== src/HistoryCleanup.antt =====
-- apps/jobs/src/jobs/history-cleanup.ts: the daily job that deletes the rows of the histories that are
-- older than the retention, whose length in days comes from the environment.
pub mod Laws
mod Tests
use agentest.Shared.{
  ℕ, Bool, true, false, ◌||◌, ◌&&◌, Option, none, some, List, [], ◌∷◌, if◌then◌else◌, ◌==◌, ltb,
  leb, Delegate, Exec, ◌>>=◌, ◌>>◌, delete_all,
}
use agentest.OrderKey.{Parsed, nan, neg, pos, parse_signed}

abbrev pub default_history_retention_days : ℕ
default_history_retention_days = 30

abbrev pub max_history_retention_days : ℕ
max_history_retention_days = 365

-- `isNaN(parsed) || parsed <= 0 || parsed > MAX_HISTORY_RETENTION_DAYS`
abbrev pub in_range : Parsed → ℕ
in_range nan = default_history_retention_days
in_range (neg n) = default_history_retention_days
in_range (pos n) =
    if leb n 0 || ltb max_history_retention_days n then default_history_retention_days else n

-- The argument is the environment variable, `none` where it is not set.
pub get_history_retention_days : Option (List ℕ) → ℕ
unfolding parse_signed
get_history_retention_days none = default_history_retention_days
get_history_retention_days (some text) = in_range (parse_signed text)

-- A row of TestCaseHistory, TestSuiteHistory or ProjectHistory.
pub record HistoryRow : Type 0 where
  pub id : ℕ
  pub created_at : ℕ
  pub snapshot : ℕ

-- `minus_days` is the clock's.
pub record Client : Type 1 where
  pub test_cases : Delegate ℕ HistoryRow ◌==◌
  pub test_suites : Delegate ℕ HistoryRow ◌==◌
  pub projects : Delegate ℕ HistoryRow ◌==◌
  pub minus_days : ℕ → ℕ → ℕ

pub record Db (c : Client) : Type 0 where
  pub test_cases : c.test_cases.Rows
  pub test_suites : c.test_suites.Rows
  pub projects : c.projects.Rows

-- `createdAt: { lt: cutoffDate }`
abbrev pub older : ℕ → HistoryRow → Bool
older cutoff r = ltb r.created_at cutoff

module _ (c : Client) where
  abbrev pub cutoff_date : Option (List ℕ) → ℕ → ℕ
  cutoff_date env now = c.minus_days now (get_history_retention_days env)

  pub run_history_cleanup : Option (List ℕ) → ℕ → Exec (Db c) (Unit {0})
  run_history_cleanup env now = do
    delete_all c.test_cases (λ s. s.test_cases) (λ s t. record s { test_cases = t })
        (older (cutoff_date env now))
    delete_all c.test_suites (λ s. s.test_suites) (λ s t. record s { test_suites = t })
        (older (cutoff_date env now))
    delete_all c.projects (λ s. s.projects) (λ s t. record s { projects = t })
        (older (cutoff_date env now))
