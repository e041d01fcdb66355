-- ===== src/Examples/Delays.antt =====
-- Runs of the delay and of the choice of a node in internal/scheduler/scheduler.go.
use mini_bk.Prelude.{◌≡◌, [], some, arith}
use mini_bk.Prelude.Int.{pos}
use mini_bk.Nodes.Manager.{find_by_labels}
use mini_bk.Scheduler.Backoff.{retry_delay, retry_delay-exact}
use mini_bk.Scheduler.Selection.{select_node}
use mini_bk.Scheduler.Selection.Best.{IsOrder, Choice, select_node-cases}
use mini_bk.Examples.{task_b, percents, manager}

retry_delay-exact_example : retry_delay (pos 1) (pos 3) ≡ pos 8_000_000_000
retry_delay-exact_example = retry_delay-exact 1 3 (omega arith) (omega arith)

percents-IsOrder : IsOrder percents
percents-IsOrder = record {
  asymmetric = λ a b h. ground arith;
  neg_transitive = λ a b c h k. ground arith;
}

select_node-cases_example :
    Choice percents percents-IsOrder task_b
      (find_by_labels [] manager)
      (select_node percents task_b (some manager))
select_node-cases_example = select_node-cases percents percents-IsOrder task_b manager
