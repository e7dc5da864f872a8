-- ===== src/HistoryCleanup/Laws.antt =====
-- The bounds of the retention, and the rows that the job deletes.
use agentest.Shared.{
  ℕ, ◌≡◌, ◌≤◌, ◌↔◌, refl, inl, inr, true, Option, none, some, List, arith, ◌==◌, Option-cases,
  Delegate, is_ok,
}
use agentest.HistoryCleanup.{
  Parsed, in_range, parse_signed, get_history_retention_days, HistoryRow, Client, Db, older,
  run_history_cleanup,
}

in_range-bounds : (p : Parsed) → (1 ≤ in_range p) × (in_range p ≤ 365)
in_range-bounds Parsed.nan = (omega arith, omega arith)
in_range-bounds (Parsed.neg n) = (omega arith, omega arith)
in_range-bounds (Parsed.pos n) = (ground arith, ground arith)

get_history_retention_days-bounds :
    (env : Option (List ℕ))
    → (1 ≤ get_history_retention_days env) × (get_history_retention_days env ≤ 365)
unfolding get_history_retention_days
get_history_retention_days-bounds none = (omega arith, omega arith)
get_history_retention_days-bounds (some text) = in_range-bounds (parse_signed text)

-- The rows of a table after those before a cutoff were deleted.
abbrev pub Trimmed : (d : Delegate ℕ HistoryRow ◌==◌) → ℕ → d.Rows → d.Rows → Type 0
Trimmed d cutoff t t' =
    (k : ℕ) (r : HistoryRow)
    → (d.find t' k ≡ some r) ↔ ((d.find t k ≡ some r) × (cutoff ≤ r.created_at))

delete_many-Trimmed :
    (d : Delegate ℕ HistoryRow ◌==◌) (cutoff : ℕ) (t : d.Rows)
    → Trimmed d cutoff t (d.delete_many t (older cutoff))
delete_many-Trimmed d cutoff t k r = elim (Option-cases (d.find t k)) [
  | inl e ↦ ground (arith, e, d.find-delete_many t (older cutoff) k)
  | inr (q, e) ↦ ground (arith, e, d.find-delete_many t (older cutoff) k)
]

-- In each table what is younger than a day stays and what is older than a year goes.
pub record Within (d : Delegate ℕ HistoryRow ◌==◌) (young old : ℕ) (t t' : d.Rows) : Type 0 where
  pub keeps :
      (k : ℕ) (r : HistoryRow) → d.find t k ≡ some r → young ≤ r.created_at → d.find t' k ≡ some r
  pub drops : (k : ℕ) (r : HistoryRow) → d.find t' k ≡ some r → old ≤ r.created_at

Trimmed-Within :
    (d : Delegate ℕ HistoryRow ◌==◌) (young old cutoff : ℕ) (t t' : d.Rows)
    → cutoff ≤ young
    → old ≤ cutoff
    → Trimmed d cutoff t t'
    → Within d young old t t'
Trimmed-Within d young old cutoff t t' a b trim = record {
  keeps = λ k r e after. (trim k r).1 (e, omega (arith, a, after));
  drops = λ k r e. let h = ((trim k r).0 e).1 in omega (arith, b, h);
}

module _ (c : Client) where
  -- The job succeeds, and afterwards each of the three histories has exactly the rows that it
  -- had before and that were not made before the cutoff date, which is as many days before now
  -- as the retention says.
  pub run_history_cleanup_effect :
      (env : Option (List ℕ)) (now : ℕ) (s : Db c)
      → let (r, s') = run_history_cleanup c env now s in
        let cutoff = c.minus_days now (get_history_retention_days env) in
        (is_ok r ≡ true)
        × Trimmed c.test_cases cutoff s.test_cases s'.test_cases
        × Trimmed c.test_suites cutoff s.test_suites s'.test_suites
        × Trimmed c.projects cutoff s.projects s'.projects
  unfolding run_history_cleanup
  run_history_cleanup_effect env now s =
      let cutoff = c.minus_days now (get_history_retention_days env) in
      (
        refl,
        delete_many-Trimmed c.test_cases cutoff s.test_cases,
        delete_many-Trimmed c.test_suites cutoff s.test_suites,
        delete_many-Trimmed c.projects cutoff s.projects,
      )

  -- Whatever the environment says and if going back by more days leads to no later date, the
  -- job keeps every row that was not made before the date one day ago and leaves no row that
  -- was made before the date 365 days ago, in each of the three histories.
  pub run_history_cleanup-bounds :
      (env : Option (List ℕ)) (now : ℕ) (s : Db c)
      → ((t a b : ℕ) → a ≤ b → c.minus_days t b ≤ c.minus_days t a)
      → let s' = (run_history_cleanup c env now s).1 in
        let young = c.minus_days now 1 in
        let old = c.minus_days now 365 in
        Within c.test_cases young old s.test_cases s'.test_cases
        × Within c.test_suites young old s.test_suites s'.test_suites
        × Within c.projects young old s.projects s'.projects
  run_history_cleanup-bounds env now s antitone =
      let days = get_history_retention_days env in
      let (least, most) = get_history_retention_days-bounds env in
      let a = antitone now 1 days least in
      let b = antitone now days 365 most in
      let (done, x, y, z) = run_history_cleanup_effect env now s in
      (
        Trimmed-Within c.test_cases (c.minus_days now 1) (c.minus_days now 365)
            (c.minus_days now days) s.test_cases _ a b x,
        Trimmed-Within c.test_suites (c.minus_days now 1) (c.minus_days now 365)
            (c.minus_days now days) s.test_suites _ a b y,
        Trimmed-Within c.projects (c.minus_days now 1) (c.minus_days now 365)
            (c.minus_days now days) s.projects _ a b z,
      )
