-- ===== src/Server/Starts.antt =====
-- What the scheduler of cmd/server/main.go does, by what the server reaches when it starts.
use mini_bk.Prelude.{◌⊎◌, String, List, ◌∷◌, Option, none, some, Bool, true, false, ◌≡◌}
use mini_bk.Prelude.Int.{◌≤ℤ◌, ◌<ℤ◌, pos}
use mini_bk.Model.Errors.{Failure, Result, ok}
use mini_bk.Config.{Config}
use mini_bk.Queue.Interface.{TaskQueue}
use mini_bk.Election.{LeaderElection}
use mini_bk.Scheduler.State.{Floats, ClaimStore}
use mini_bk.Scheduler.Start.{Runner, TickRound, ElectionRound, panicked, left, start}
use mini_bk.Scheduler.Start.Idle.{left_by, run_ticks, ticks_of}
use mini_bk.Server.{Server}

-- Whether etcd is set up, and the client, its first request and the session of the election succeed.
pub elects : {E : Type 0} → List String → Result E → Option Failure → Option Failure → Bool
elects (endpoint ∷ rest) (ok e) none none = true
elects _ _ _ _ = false

-- The election that the server makes, if it makes one.
AsElected : Bool → Option LeaderElection → Type 0
AsElected true election = (le : LeaderElection) × (election ≡ some le)
AsElected false election = election ≡ none

module _ {F Q E : Type 0} (o : TaskQueue Q) (fl : Floats F) (c : ClaimStore E) where
  -- With an election the scheduler stays as it is for ever. Without one it panics where the interval is not
  -- positive, and else it runs all its ticks.
  pub Served : Bool → List (TickRound Q) → List (ElectionRound Q) → Runner F Q E → Type 0
  Served true ticks rounds r =
      (le : LeaderElection) × (start o fl c ticks rounds r ≡ left (record r { election = some le }))
  Served false ticks rounds r =
      ((r.tick_interval ≤ℤ pos 0) × (start o fl c ticks rounds r ≡ panicked))
      ⊎ ((pos 0 <ℤ r.tick_interval)
          × (start o fl c ticks rounds r
              ≡ left_by o fl c r (run_ticks o fl c (ticks_of ticks) r.sched)))
