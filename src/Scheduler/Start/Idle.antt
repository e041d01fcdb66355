-- ===== src/Scheduler/Start/Idle.antt =====
-- What Start (internal/scheduler/scheduler.go) comes to with the election of
-- internal/election/election.go, and without one.
use mini_bk.Prelude.{
  List, [], ◌∷◌, Option, none, some, true, false, ◌≡◌, refl, ap, ◌∙◌, ◌⊎◌, inl, inr, Bool-cases,
  arith,
}
use mini_bk.Prelude.Int.{ℤ, pos, ltb_ℤ, ◌≤ℤ◌, ◌<ℤ◌}
use mini_bk.Model.Errors.{Failure}
use mini_bk.Model.Task.{Time}
use mini_bk.Queue.Interface.{TaskQueue}
use mini_bk.Election.{LeaderElection, campaign, campaign_begin, campaign_end}
use mini_bk.Scheduler.State.{Scheduler, Floats, ClaimStore}
use mini_bk.Scheduler.Tick.{PopRound, tick}
use mini_bk.Scheduler.Start.{
  Runner, TickEvent, context_done, ticked, TickRound, ElectionRound, election_stopped, campaigned,
  LoopEnd, panicked, going_on, left, tick_loop, loop_end, run_tick_loop, election_loop, start,
}

-- Whatever etcd replies, a Campaign that returns returns an error, and leaves no leader.
campaign-fails :
    (reply : Option Failure) (le : LeaderElection)
    → (e : Failure) × (campaign reply le ≡ (some e, record le { is_leader = false }))
unfolding campaign campaign_begin campaign_end
campaign-fails (some x) le = (_, refl)
campaign-fails none le = (_, refl)

-- The times and the rounds of the ticks before the end of the context.
pub ticks_of : {Q : Type 0} → List (TickRound Q) → List (Time × List (PopRound Q))
ticks_of [] = []
ticks_of (round ∷ rest) =
    let later = ticks_of rest in
    elim round.event [ context_done ↦ [] | ticked now pops ↦ (now, pops) ∷ later ]

module _ {F Q E : Type 0} (o : TaskQueue Q) (fl : Floats F) (c : ClaimStore E) where
  election_loop-idle :
      (interval : ℤ) (rounds : List (ElectionRound Q)) (le : LeaderElection) (s : Scheduler F Q E)
      → (le' : LeaderElection) × (election_loop o fl c interval rounds le s ≡ left (le', s))
  unfolding election_loop
  election_loop-idle interval [] le s = (le, refl)
  election_loop-idle interval (election_stopped ∷ rest) le s = (le, refl)
  election_loop-idle interval (campaigned reply ticks ∷ rest) le s =
      let (e, same) = campaign-fails reply le in
      let (le', run) = election_loop-idle interval rest (record le { is_leader = false }) s in
      (le', rw (same, election_loop) (rw same run))

  -- A scheduler that is started with a leader election never runs a tick: however many campaigns it
  -- wins or loses and whatever may happen meanwhile, the state of the scheduler is the one it was
  -- started with.
  pub start-elected :
      (ticks : List (TickRound Q)) (rounds : List (ElectionRound Q)) (r : Runner F Q E)
      (le : LeaderElection)
      → r.election ≡ some le
      → (le' : LeaderElection) × (start o fl c ticks rounds r
          ≡ left (record r { election = some le' }))
  unfolding start
  start-elected ticks rounds r le h =
      let (le', run) = election_loop-idle r.tick_interval rounds le r.sched in
      (le', rw (h, start) (rw run refl))

  -- Ticks one after the other.
  pub run_ticks : List (Time × List (PopRound Q)) → Scheduler F Q E → Option (Scheduler F Q E)
  run_ticks [] s = some s
  run_ticks ((now, pops) ∷ rest) s = elim (tick o fl c pops now s) [
    | none ↦ none
    | some s' ↦ run_ticks rest s'
  ]

  tick_loop-run_ticks :
      (rounds : List (TickRound Q)) (s : Scheduler F Q E)
      → tick_loop o fl c false rounds s ≡ run_ticks (ticks_of rounds) s
  unfolding tick_loop run_ticks ticks_of
  tick_loop-run_ticks [] s = refl
  tick_loop-run_ticks (round ∷ rest) s = by_event round.event refl (tick_loop-run_ticks rest)
    where
      by_tick :
          (t : Option (Scheduler F Q E))
          → ((s' : Scheduler F Q E) → tick_loop o fl c false rest s' ≡ run_ticks (ticks_of rest) s')
          → elim t as (λ x. Option (Scheduler F Q E)) [
            | none ↦ none
            | some s' ↦ tick_loop o fl c false rest s'
          ]
            ≡ elim t as (λ x. Option (Scheduler F Q E)) [
              | none ↦ none
              | some s' ↦ run_ticks (ticks_of rest) s'
            ]
      by_tick none later = refl
      by_tick (some s') later = later s'

      by_event :
          (e : TickEvent Q)
          → round.event ≡ e
          → ((s' : Scheduler F Q E) → tick_loop o fl c false rest s' ≡ run_ticks (ticks_of rest) s')
          → tick_loop o fl c false (round ∷ rest) s ≡ run_ticks (ticks_of (round ∷ rest)) s
      by_event context_done e later = rw e refl
      by_event (ticked now pops) e later = rw e (by_tick (tick o fl c pops now s) later)

  -- The runner after its ticks.
  pub left_by : Runner F Q E → Option (Scheduler F Q E) → LoopEnd (Runner F Q E)
  left_by r none = going_on
  left_by r (some s) = left (record r { sched = s })

  -- A scheduler that is started without an election panics if its interval is not positive, and else
  -- runs every tick of its ticker up to the end of its context, one after the other.
  pub start-alone :
      (ticks : List (TickRound Q)) (rounds : List (ElectionRound Q)) (r : Runner F Q E)
      → r.election ≡ none
      → ((r.tick_interval ≤ℤ pos 0) × (start o fl c ticks rounds r ≡ panicked))
        ⊎ ((pos 0 <ℤ r.tick_interval)
            × (start o fl c ticks rounds r ≡ left_by r (run_ticks (ticks_of ticks) r.sched)))
  unfolding start run_tick_loop loop_end left_by
  start-alone ticks rounds r h = elim (Bool-cases (ltb_ℤ (pos 0) r.tick_interval)) [
    | inr e ↦ inl (ground arith, rw (h, e, start) refl)
    | inl e ↦ inr (
      ground arith,
      by_end e (tick_loop o fl c false ticks r.sched) refl
          ∙ ap (left_by r) (tick_loop-run_ticks ticks r.sched),
    )
  ]
    where
      by_end :
          ltb_ℤ (pos 0) r.tick_interval ≡ true
          → (x : Option (Scheduler F Q E)) → tick_loop o fl c false ticks r.sched ≡ x
          → start o fl c ticks rounds r ≡ left_by r (tick_loop o fl c false ticks r.sched)
      by_end e none ends = rw (h, e, start) (rw ends refl)
      by_end e (some s) ends =
          rw (h, e, start) (rw ends (ap (λ l. left (record r { sched = s; election = l })) h))
