-- ===== src/Scheduler/Costs.antt =====
-- What a task takes of the limits in tick of internal/scheduler/scheduler.go, and what is left.
use Prim.Native.Nat.{max}
use mini_bk.Prelude.{ℕ, ◌+◌, ◌≤◌, List, [], ◌∷◌, true, ◌≡◌, refl, arith, All}
use mini_bk.Prelude.Int.{ℤ, pos, pos_part, ltb_ℤ, ◌-ℤ◌, ◌+ℤ◌}
use mini_bk.Model.Task.{Task}
use mini_bk.Store.Load.{cost}
use mini_bk.Scheduler.Limits.{HasLimits}
use mini_bk.Scheduler.Tick.{can_allocate, allocated_cpu, allocated_mem}

-- The three measures: tasks, CPU and memory.
abbrev pub one : ℤ → ℤ → ℕ
one _ _ = 1

abbrev pub cpu_of : ℤ → ℤ → ℕ
cpu_of c m = pos_part c

abbrev pub mem_of : ℤ → ℤ → ℕ
mem_of c m = pos_part m

-- What is left of a budget after a task that fits.
pub one_less :
    (slots : ℤ) → ltb_ℤ (pos 0) slots ≡ true → pos_part (slots -ℤ pos 1) + 1 ≤ pos_part slots
unfolding ◌-ℤ◌
one_less slots h = ground arith

pub fits_cpu :
    (t : Task) (cpu mem : ℤ)
    → HasLimits t
    → can_allocate t cpu mem ≡ true
    → pos_part (cpu -ℤ t.cpu_limit) + pos_part t.cpu_limit ≤ pos_part cpu
unfolding can_allocate ◌-ℤ◌
fits_cpu t cpu mem n h = ground arith

pub fits_mem :
    (t : Task) (cpu mem : ℤ)
    → HasLimits t
    → can_allocate t cpu mem ≡ true
    → pos_part (mem -ℤ t.memory_limit) + pos_part t.memory_limit ≤ pos_part mem
unfolding can_allocate ◌-ℤ◌
fits_mem t cpu mem n h = ground arith

pub allocated_cpu-cost :
    (ts : List Task) → All HasLimits ts → allocated_cpu ts ≡ pos (cost cpu_of ts)
unfolding allocated_cpu cost ◌+ℤ◌
allocated_cpu-cost [] h = refl
allocated_cpu-cost (t ∷ ts) h = rw (allocated_cpu-cost ts h.1) (ground arith)

pub allocated_mem-cost :
    (ts : List Task) → All HasLimits ts → allocated_mem ts ≡ pos (cost mem_of ts)
unfolding allocated_mem cost ◌+ℤ◌
allocated_mem-cost [] h = refl
allocated_mem-cost (t ∷ ts) h = rw (allocated_mem-cost ts h.1) (ground arith)

pub left_of : (total : ℤ) (n : ℕ) → n + pos_part (total -ℤ pos n) ≤ max (pos_part total) n
unfolding ◌-ℤ◌
left_of total n = ground arith
