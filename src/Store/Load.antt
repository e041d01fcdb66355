-- ===== src/Store/Load.antt =====
-- What the rows in status `running` add up to, and how the statements of
-- internal/store/task_store.go change it.
use mini_bk.Prelude.{
  ℕ, ◌+◌, ◌≤◌, String, List, [], ◌∷◌, Option, none, some, if◌then◌else◌, str_eq, eq_iff, ◌≡◌, refl,
  arith, keep, length, All, Bool-cases, ◌∙◌, ◌⊎◌, inl, inr,
}
use mini_bk.Prelude.Int.{ℤ}
use mini_bk.Model.Errors.{Failure, ok, err}
use mini_bk.Model.Task.{Task, Time}
use mini_bk.Store.TaskTable.{
  TaskDb, find_row, update_rows, update, has_status, order_rows, insert_row, before, asked,
  get_running_tasks,
}

-- No two rows have one UID: the UNIQUE constraint of the table.
abbrev pub DistinctUids : List Task → Type 0
DistinctUids [] = Unit
DistinctUids (r ∷ rs) = (find_row r.task_uid rs ≡ none) × DistinctUids rs

-- What a task weighs while it runs, by a measure of its two limits.
abbrev pub weight : (ℤ → ℤ → ℕ) → Task → ℕ
weight g t = if has_status "running" t then g t.cpu_limit t.memory_limit else 0

unfoldable pub load : (ℤ → ℤ → ℕ) → List Task → ℕ
load g [] = 0
load g (r ∷ rs) = weight g r + load g rs

find_row-none_update :
    (t : Task) (uid : String) (rs : List Task)
    → find_row uid rs ≡ none
    → find_row uid (update_rows t rs) ≡ none
unfolding find_row update_rows
find_row-none_update t uid [] h = refl
find_row-none_update t uid (r ∷ rs) h =
    ground (arith, eq_iff r.task_uid uid, find_row-none_update t uid rs)

pub update_rows-DistinctUids :
    (t : Task) (rs : List Task) → DistinctUids rs → DistinctUids (update_rows t rs)
unfolding update_rows
update_rows-DistinctUids t [] d = tt
update_rows-DistinctUids t (r ∷ rs) d = elim (Bool-cases (str_eq r.task_uid t.task_uid)) [
  | inl same ↦ rw same (find_row-none_update t r.task_uid rs d.0, update_rows-DistinctUids t rs d.1)
  | inr other ↦
      rw other (find_row-none_update t r.task_uid rs d.0, update_rows-DistinctUids t rs d.1)
]

-- A row that is not there is not written.
update_rows-absent :
    (t : Task) (rs : List Task) → find_row t.task_uid rs ≡ none → update_rows t rs ≡ rs
unfolding find_row update_rows
update_rows-absent t [] h = refl
update_rows-absent t (r ∷ rs) h = ground (arith, update_rows-absent t rs)

-- A write adds at most the weight of the task written.
pub load-update_rows :
    (g : ℤ → ℤ → ℕ) (t : Task) (rs : List Task)
    → DistinctUids rs
    → load g (update_rows t rs) ≤ load g rs + weight g t
unfolding load update_rows has_status
load-update_rows g t [] d = omega arith
load-update_rows g t (r ∷ rs) d = elim (Bool-cases (str_eq r.task_uid t.task_uid)) [
  | inl same ↦
      let uid : r.task_uid ≡ t.task_uid = (eq_iff r.task_uid t.task_uid).0 same in
      let rest : update_rows t rs ≡ rs = update_rows-absent t rs (rw (← uid) d.0) in
      rw (same, rest) (omega arith)
  | inr other ↦ rw other (omega (arith, load-update_rows g t rs d.1))
]

-- An Update keeps the UIDs distinct, and adds at most the weight of the task.
module _ (now : Time) (t : Task) (db : TaskDb) where
  pub update-DistinctUids : DistinctUids db.rows → DistinctUids (update now t db).2.rows
  unfolding update
  update-DistinctUids d =
      ground (arith, update_rows-DistinctUids (record t { updated_at = now }) db.rows d)

  pub load-update :
      (g : ℤ → ℤ → ℕ)
      → DistinctUids db.rows
      → load g (update now t db).2.rows ≤ load g db.rows + weight g t
  unfolding update has_status
  load-update g d = ground (arith, load-update_rows g (record t { updated_at = now }) db.rows d)

-- The same measure over a list of tasks, whatever their status.
unfoldable pub cost : (ℤ → ℤ → ℕ) → List Task → ℕ
cost g [] = 0
cost g (t ∷ ts) = g t.cpu_limit t.memory_limit + cost g ts

cost-insert_row :
    (g : ℤ → ℤ → ℕ) (t : Task) (rs : List Task)
    → cost g (insert_row t rs) ≡ g t.cpu_limit t.memory_limit + cost g rs
unfolding cost insert_row
cost-insert_row g t [] = omega arith
cost-insert_row g t (r ∷ rs) = ground (arith, cost-insert_row g t rs)

cost-order_rows : (g : ℤ → ℤ → ℕ) (rs : List Task) → cost g (order_rows rs) ≡ cost g rs
unfolding cost order_rows
cost-order_rows g [] = refl
cost-order_rows g (r ∷ rs) =
    omega (arith, cost-insert_row g r (order_rows rs), cost-order_rows g rs)

cost-keep : (g : ℤ → ℤ → ℕ) (rs : List Task) → cost g (keep (has_status "running") rs) ≡ load g rs
unfolding cost load keep
cost-keep g [] = refl
cost-keep g (r ∷ rs) = ground (arith, cost-keep g rs)

-- The rows that GetRunningTasks returns.
abbrev pub running_rows : List Task → List Task
running_rows rs = order_rows (keep (has_status "running") rs)

pub cost-running_rows : (g : ℤ → ℤ → ℕ) (rs : List Task) → cost g (running_rows rs) ≡ load g rs
cost-running_rows g rs = cost-order_rows g (keep (has_status "running") rs) ∙ cost-keep g rs

-- With the measure 1 the cost is the number of tasks.
pub cost_one : (ts : List Task) → cost (λ _ _. 1) ts ≡ length ts
unfolding cost
cost_one [] = refl
cost_one (t ∷ ts) = omega (arith, cost_one ts)

module _ (P : Task → Type 0) where
  All-insert_row : (t : Task) (rs : List Task) → P t → All P rs → All P (insert_row t rs)
  unfolding insert_row
  All-insert_row t [] p h = (p, tt)
  All-insert_row t (r ∷ rs) p h = elim (Bool-cases (before t r)) [
    | inl first ↦ rw first (p, h)
    | inr later ↦ rw later (h.0, All-insert_row t rs p h.1)
  ]

  All-order_rows : (rs : List Task) → All P rs → All P (order_rows rs)
  unfolding order_rows
  All-order_rows [] h = tt
  All-order_rows (r ∷ rs) h = All-insert_row r (order_rows rs) h.0 (All-order_rows rs h.1)

  All-keep : (rs : List Task) → All P rs → All P (keep (has_status "running") rs)
  unfolding keep
  All-keep [] h = tt
  All-keep (r ∷ rs) h = elim (Bool-cases (has_status "running" r)) [
    | inl kept ↦ rw kept (h.0, All-keep rs h.1)
    | inr dropped ↦ rw dropped (All-keep rs h.1)
  ]

  pub All-running_rows : (rs : List Task) → All P rs → All P (running_rows rs)
  All-running_rows rs h = All-order_rows (keep (has_status "running") rs) (All-keep rs h)

-- What GetRunningTasks answers; it leaves the rows alone.
pub get_running_tasks-cases :
    (answers : List (Option Failure)) (db : TaskDb)
    → db.answers ≡ answers
    → ((x : Failure) × ((get_running_tasks db).0 ≡ err x))
      ⊎ ((get_running_tasks db).0 ≡ ok (running_rows db.rows))
unfolding get_running_tasks has_status
get_running_tasks-cases [] db e = inr (ground arith)
get_running_tasks-cases (none ∷ rest) db e = inr (ground arith)
get_running_tasks-cases (some x ∷ rest) db e = inl (x, ground arith)

pub get_running_tasks-db : (db : TaskDb) → (get_running_tasks db).1 ≡ asked db
unfolding get_running_tasks
get_running_tasks-db db = ground arith
