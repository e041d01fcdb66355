-- ===== src/Examples/Lifecycle.antt =====
-- Runs of internal/model/task.go.
use mini_bk.Prelude.{◌≡◌, ◌⊎◌, none, some}
use mini_bk.Prelude.Int.{pos}
use mini_bk.Model.Errors.{created, pending, invalid_transition}
use mini_bk.Model.Task.{transition_to}
use mini_bk.Model.Lifecycle.{◌⟶◌, transition_to-cases}
use mini_bk.Examples.{task_a}

transition_to-cases_example :
    ((created ⟶ pending)
      × (transition_to (pos 7) pending task_a
          ≡ (none, record task_a { status = pending; updated_at = pos 7 })))
    ⊎ ((¬ (created ⟶ pending))
        × (transition_to (pos 7) pending task_a
            ≡ (some (invalid_transition created pending), task_a)))
transition_to-cases_example = transition_to-cases (pos 7) pending task_a
