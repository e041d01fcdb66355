-- ===== src/Model/Lifecycle.antt =====
-- The task life cycle of internal/model/task.go against its diagram.
use mini_bk.Prelude.{
  ℕ, suc, ◌+◌, ◌≤◌, ◌<◌, ◌≡◌, refl, ◌⊎◌, inl, inr, ◌≢◌, List, [], ◌∷◌, Option, none, some, true,
  false, arith, String,
}
use mini_bk.Model.Errors.{
  TaskStatus, created, pending, running, success, failed, canceled, unknown, Failure,
  invalid_transition,
}
use mini_bk.Model.Task.{Task, Time, is_terminal, transition_to}

-- The arrows of the life cycle, independent of the table in the code.
infix 40 ◌⟶◌
pub data ◌⟶◌ : TaskStatus → TaskStatus → Type 0 where
  enqueue : created ⟶ pending
  start : pending ⟶ running
  finish : running ⟶ success
  break : running ⟶ failed
  cancel_created : created ⟶ canceled
  cancel_pending : pending ⟶ canceled
  cancel_running : running ⟶ canceled

-- How many arrows may still follow.
abbrev pub rank : TaskStatus → ℕ
rank created = 3
rank pending = 2
rank running = 1
rank _ = 0

⟶-rank : {s t : TaskStatus} → s ⟶ t → rank t < rank s
⟶-rank enqueue = omega arith
⟶-rank start = omega arith
⟶-rank finish = omega arith
⟶-rank break = omega arith
⟶-rank cancel_created = omega arith
⟶-rank cancel_pending = omega arith
⟶-rank cancel_running = omega arith

ruleset arrows = (enqueue, start, finish, break, cancel_created, cancel_pending, cancel_running)

accepted-⟶ :
    (now : Time) (s target : TaskStatus) (t : Task)
    → t.status ≡ s
    → (transition_to now target t).0 ≡ none
    → s ⟶ target
unfolding transition_to
accepted-⟶ now s target t e h = grind (arith, arrows)

complete :
    (now : Time) (s target : TaskStatus) (t : Task)
    → t.status ≡ s
    → s ⟶ target
    → transition_to now target t ≡ (none, record t { status = target; updated_at = now })
unfolding transition_to
complete now _ _ t e enqueue = ground arith
complete now _ _ t e start = ground arith
complete now _ _ t e finish = ground arith
complete now _ _ t e break = ground arith
complete now _ _ t e cancel_created = ground arith
complete now _ _ t e cancel_pending = ground arith
complete now _ _ t e cancel_running = ground arith

sound :
    (now : Time) (target : TaskStatus) (t : Task)
    → ((transition_to now target t).0 ≡ none)
      ⊎ (transition_to now target t ≡ (some (invalid_transition t.status target), t))
unfolding transition_to
sound now target t = ground arith

clash : {r : Option Failure × Task} {e : Failure} {t u : Task} → r ≡ (none, t) → r ≡ (some e, u) → ⊥
clash p q = ground arith

-- A transition along an arrow of the life cycle succeeds and changes the status and the update
-- time alone; any other is refused with an error that names both statuses, and the task is as it
-- was.
pub transition_to-cases :
    (now : Time) (target : TaskStatus) (t : Task)
    → ((t.status ⟶ target)
        × (transition_to now target t ≡ (none, record t { status = target; updated_at = now })))
      ⊎ ((¬ (t.status ⟶ target))
          × (transition_to now target t ≡ (some (invalid_transition t.status target), t)))
transition_to-cases now target t = elim (sound now target t) [
  | inl accepted ↦
      let a = accepted-⟶ now t.status target t refl accepted in
      inl (a, complete now t.status target t refl a)
  | inr kept ↦ inr (λ a. clash (complete now t.status target t refl a) kept, kept)
]

-- The task after a list of attempts, refused ones included, and the number of accepted ones.
pub attempts : Time → List TaskStatus → Task → ℕ × Task
attempts now [] t = (0, t)
attempts now (target ∷ rest) t =
    let (e, t') = transition_to now target t in
    let (n, u) = attempts now rest t' in (elim e [ none ↦ suc n | some _ ↦ n ], u)

step-rank :
    (now : Time) (target : TaskStatus) (t : Task)
    → rank (transition_to now target t).1.status
        + elim (transition_to now target t).0 [ none ↦ 1 | some _ ↦ 0 ]
      ≤ rank t.status
unfolding transition_to
step-rank now target t = ground arith

-- Whatever is attempted in whatever order, the accepted attempts and the steps that the life cycle
-- has left after them are together no more than the steps it had left before: at most three are
-- accepted in the life of a task.
pub attempts-le :
    (now : Time) (targets : List TaskStatus) (t : Task)
    → (attempts now targets t).0 + rank (attempts now targets t).1.status ≤ rank t.status
unfolding attempts
attempts-le now [] t = omega arith
attempts-le now (target ∷ rest) t =
    ground (arith, step-rank now target t, attempts-le now rest (transition_to now target t).1)

abbrev pub IsKnown : TaskStatus → Type 0
IsKnown s = (u : String) → s ≢ unknown u

-- A task in a terminal status refuses every transition and is left as it was; a task in any other
-- of the six statuses can be cancelled.
pub is_terminal-refuses :
    (now : Time) (target : TaskStatus) (t : Task)
    → IsKnown t.status
    → ((is_terminal t.status ≡ true)
        × (transition_to now target t ≡ (some (invalid_transition t.status target), t)))
      ⊎ ((is_terminal t.status ≡ false)
          × (transition_to now canceled t
              ≡ (none, record t { status = canceled; updated_at = now })))
unfolding transition_to is_terminal
is_terminal-refuses now target t known = by_status t.status refl
  where
    by_status :
        (s : TaskStatus)
        → t.status ≡ s
        → ((is_terminal t.status ≡ true)
            × (transition_to now target t ≡ (some (invalid_transition t.status target), t)))
          ⊎ ((is_terminal t.status ≡ false)
              × (transition_to now canceled t
                  ≡ (none, record t { status = canceled; updated_at = now })))
    by_status (unknown u) e = absurd (known u e)
    by_status created e = ground arith
    by_status _ e = ground arith
