-- ===== src/Scheduler/Selection.antt =====
-- SelectNode of internal/scheduler/scheduler.go. `sort.Slice` does not say in which order it leaves
-- nodes of equal usage; here they keep the order in which they were found.
pub mod Best
use mini_bk.Prelude.{List, [], ◌∷◌, Option, none, some, Bool, not, ◌&&◌, ◌||◌, if◌then◌else◌, keep}
use mini_bk.Prelude.Int.{ℤ, pos, ltb_ℤ, ◌-ℤ◌}
use mini_bk.Model.Errors.{Result, ok, err, no_matching_labels, insufficient_resources}
use mini_bk.Model.Task.{Task}
use mini_bk.Model.Node.{Node}
use mini_bk.Nodes.Manager.{NodeManager, find_by_labels}
use mini_bk.Scheduler.State.{Floats}

unfoldable is_zero : ℤ → Bool
is_zero a = not (ltb_ℤ a (pos 0)) && not (ltb_ℤ (pos 0) a)

-- A limit of 0 asks for nothing.
unfoldable limit_fits : ℤ → ℤ → Bool
limit_fits limit available = is_zero limit || not (ltb_ℤ available limit)

module _ {F : Type 0} (fl : Floats F) where
  unfoldable pub node_fits : Task → Node F → Bool
  unfolding limit_fits is_zero
  node_fits t n =
      limit_fits t.cpu_limit (n.total_cpu -ℤ fl.used_of n.total_cpu n.cpu_usage_pct)
      && limit_fits t.memory_limit (n.total_memory_mb -ℤ n.memory_used_mb)

  unfoldable pub insert_by_usage : Node F → List (Node F) → List (Node F)
  insert_by_usage n [] = n ∷ []
  insert_by_usage n (m ∷ ms) =
      let later = m ∷ insert_by_usage n ms in
      if fl.less m.cpu_usage_pct n.cpu_usage_pct then later else n ∷ m ∷ ms

  unfoldable pub sort_by_usage : List (Node F) → List (Node F)
  unfolding insert_by_usage
  sort_by_usage [] = []
  sort_by_usage (n ∷ ns) = insert_by_usage n (sort_by_usage ns)

  unfoldable pub first_of_sorted : List (Node F) → Result (Option (Node F))
  first_of_sorted [] = err insufficient_resources
  first_of_sorted (n ∷ ns) = ok (some n)

  unfoldable pub among : Task → List (Node F) → Result (Option (Node F))
  unfolding first_of_sorted sort_by_usage keep
  among t [] = err no_matching_labels
  among t (n ∷ ns) = first_of_sorted (sort_by_usage (keep (node_fits t) (n ∷ ns)))

  -- `ok none` where there is no node manager.
  unfoldable pub select_node : Task → Option (NodeManager F) → Result (Option (Node F))
  unfolding among
  select_node t none = ok none
  select_node t (some m) = among t (find_by_labels t.node_selector m)
