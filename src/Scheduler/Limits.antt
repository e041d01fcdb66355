-- ===== src/Scheduler/Limits.antt =====
-- How much running work each step of dispatch (internal/scheduler/scheduler.go) adds to the table.
use mini_bk.Prelude.{ℕ, ◌+◌, ◌≤◌, String, some, ◌≡◌, refl, arith, inl, inr, Option-cases}
use native.Mathlib.Bridge.{le_prop}
use mini_bk.Prelude.Int.{ℤ, pos, ◌≤ℤ◌}
use mini_bk.Model.Errors.{TaskStatus, running}
use mini_bk.Model.Task.{Task, Time, transition_to}
use mini_bk.Model.Node.{Node}
use mini_bk.Store.Load.{DistinctUids, weight, load, update-DistinctUids, load-update}
use mini_bk.Scheduler.State.{Scheduler, add_context, launch, send_to_node, open_node_queue}
use mini_bk.Scheduler.Dispatch.{start_task, dispatch_local, hand_to_node, dispatch_remote}

abbrev pub demand : (ℤ → ℤ → ℕ) → Task → ℕ
demand g t = g t.cpu_limit t.memory_limit

-- Limits as CreateTask makes them.
pub record HasLimits (t : Task) : Type 0 where
  pub cpu : pos 0 ≤ℤ t.cpu_limit
  pub memory : pos 0 ≤ℤ t.memory_limit

pub weight-le : (g : ℤ → ℤ → ℕ) (t : Task) → weight g t ≤ demand g t
weight-le g t = ground arith

-- The accepted transition keeps the limits.
pub transition_to-limits :
    (now : Time) (target : TaskStatus) (t : Task)
    → ((transition_to now target t).1.cpu_limit ≡ t.cpu_limit)
      × ((transition_to now target t).1.memory_limit ≡ t.memory_limit)
unfolding transition_to
transition_to-limits now target t = ground arith

abbrev KeepsLimits : (Task → Task) → Type 0
KeepsLimits f = (u : Task) → ((f u).cpu_limit ≡ u.cpu_limit) × ((f u).memory_limit ≡ u.memory_limit)

module _ {F Q E : Type 0} (now : Time) (g : ℤ → ℤ → ℕ) (t : Task) (s : Scheduler F Q E) where
  module _ (assign : Task → Task) (same : KeepsLimits assign) where
    stamped : Task
    stamped = record (assign (transition_to now running t).1) { started_at = some now }

    start_task-load :
        DistinctUids s.db.rows
        → load g (start_task now assign t s).1.db.rows ≤ load g s.db.rows + demand g t
    unfolding start_task stamped
    start_task-load d = ground (
      arith,
      load-update now stamped s.db g d,
      weight-le g stamped,
      same (transition_to now running t).1,
      transition_to-limits now running t,
    )

    start_task-DistinctUids :
        DistinctUids s.db.rows → DistinctUids (start_task now assign t s).1.db.rows
    unfolding start_task stamped
    start_task-DistinctUids d = ground (arith, update-DistinctUids now stamped s.db d)

  pub dispatch_local-load :
      DistinctUids s.db.rows
      → load g (dispatch_local now t s).db.rows ≤ load g s.db.rows + demand g t
  unfolding dispatch_local launch add_context
  dispatch_local-load d = ground (arith, start_task-load (λ u. u) (λ u. (refl, refl)) d)

  pub dispatch_local-DistinctUids :
      DistinctUids s.db.rows → DistinctUids (dispatch_local now t s).db.rows
  unfolding dispatch_local launch add_context
  dispatch_local-DistinctUids d =
      ground (arith, start_task-DistinctUids (λ u. u) (λ u. (refl, refl)) d)

module _ {F Q E : Type 0} (id : String) (t : Task) (s : Scheduler F Q E) where
  pub hand_to_node-db : (hand_to_node id t s).db ≡ s.db
  unfolding hand_to_node launch add_context send_to_node open_node_queue
  hand_to_node-db = ground arith

module _ {F Q E : Type 0} (now : Time) (g : ℤ → ℤ → ℕ) (t : Task) (n : Node F)
    (s : Scheduler F Q E) where
  abbrev on_node : Task → Task
  on_node u = record u { assigned_node_id = n.node_id }

  pub dispatch_remote-load :
      DistinctUids s.db.rows
      → load g (dispatch_remote now t n s).db.rows ≤ load g s.db.rows + demand g t
  unfolding dispatch_remote
  dispatch_remote-load d = elim (Option-cases (start_task now on_node t s).0) [
    | inl e ↦ rw (e, dispatch_remote) (start_task-load now g t s on_node (λ u. (refl, refl)) d)
    | inr (u, e) ↦
        rw (e, dispatch_remote, hand_to_node-db n.node_id u (start_task now on_node t s).1)
          (start_task-load now g t s on_node (λ u. (refl, refl)) d)
  ]

  pub dispatch_remote-DistinctUids :
      DistinctUids s.db.rows → DistinctUids (dispatch_remote now t n s).db.rows
  unfolding dispatch_remote
  dispatch_remote-DistinctUids d = elim (Option-cases (start_task now on_node t s).0) [
    | inl e ↦
        rw (e, dispatch_remote) (start_task-DistinctUids now g t s on_node (λ u. (refl, refl)) d)
    | inr (u, e) ↦
        rw (e, dispatch_remote, hand_to_node-db n.node_id u (start_task now on_node t s).1)
          (start_task-DistinctUids now g t s on_node (λ u. (refl, refl)) d)
  ]

pub HasLimits-prop : (t : Task) → IsProp (HasLimits t)
HasLimits-prop t h k =
    λ i. record { cpu = le_prop h.cpu k.cpu i; memory = le_prop h.memory k.memory i }
