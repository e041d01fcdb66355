-- ===== src/Scheduler/Start/Cancels.antt =====
-- A cancel message from CancelTask (internal/service/task_service.go) to the listener in Start
-- (internal/scheduler/scheduler.go).
use Prim.Native.String.{◌++◌ as ◌<>◌}
use mini_bk.Prelude.{
  ℕ, String, ◌∷◌, none, some, ◌≡◌, refl, ap, ◌∙◌, inl, inr, ◌⊎◌, Option-cases, if◌then◌else◌,
  str_eq,
}
use mini_bk.Prelude.Maps.{lookup, remove, lookup-remove}
use mini_bk.Prelude.Text.{trim_prefix-append}
use mini_bk.Scheduler.State.{Scheduler, cancel_message}
use mini_bk.Scheduler.Start.{on_cancel_message}

module _ {F Q E : Type 0} (uid : String) (s : Scheduler F Q E) where
  on_cancel_message_lem : on_cancel_message ("tasks:cancel:" <> uid) s ≡ cancel_message uid s
  unfolding on_cancel_message
  on_cancel_message_lem = ap (λ u. cancel_message u s) (trim_prefix-append "tasks:cancel:" uid)

  -- The message on the channel of a task calls the cancel function of that task, if the scheduler
  -- has one, and forgets it; the function of any other task stays, and without such a function
  -- nothing happens.
  pub on_cancel_message-cases :
      (j : String)
      → let s' = on_cancel_message ("tasks:cancel:" <> uid) s in
        ((lookup uid s.cancel_funcs ≡ none) × (s' ≡ s))
        ⊎ ((ctx : ℕ) × (lookup uid s.cancel_funcs ≡ some ctx)
            × (s'.canceled ≡ ctx ∷ s.canceled)
            × (lookup j s'.cancel_funcs ≡ (if str_eq uid j then none else lookup j s.cancel_funcs)))
  unfolding cancel_message
  on_cancel_message-cases j = elim (Option-cases (lookup uid s.cancel_funcs)) [
    | inl e ↦ inl (e, on_cancel_message_lem ∙ rw (e, cancel_message) refl)
    | inr (ctx, e) ↦
        let done = on_cancel_message_lem ∙ called ctx e in
        inr (
          ctx,
          e,
          ap (λ x. x.canceled) done,
          ap (λ x. lookup j x.cancel_funcs) done ∙ lookup-remove uid j s.cancel_funcs,
        )
  ]
    where
      called :
          (ctx : ℕ)
          → lookup uid s.cancel_funcs ≡ some ctx
          → cancel_message uid s
            ≡ record s { canceled = ctx ∷ s.canceled; cancel_funcs = remove uid s.cancel_funcs }
      called ctx e = rw (e, cancel_message) refl
