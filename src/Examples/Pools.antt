-- ===== src/Examples/Pools.antt =====
-- A run of internal/grpcclient/pool.go and one of internal/middleware/ratelimit.go.
use Prim.Native.Nat.{min}
use mini_bk.Prelude.{ℕ, ◌+◌, ◌-◌, ◌≤◌, ◌<◌, ◌≡◌, refl, List, [], ◌∷◌, none, some, inl, ◌⊎◌, ltb}
use mini_bk.Prelude.Int.{ℤ, pos}
use mini_bk.Model.Errors.{external, ok}
use mini_bk.Model.Task.{Time}
use mini_bk.Pool.Keyed.{IsMap, once_if, times, times_in}
use mini_bk.Pool.Balance.{Step, dials, settles, removes, run, fresh_server, run-balanced}
use mini_bk.RateLimit.{CounterOps}
use mini_bk.RateLimit.Window.{IsCounter, serve, count_of, serve-bound}

-- Two goroutines dial the same node at once; another dial fails.
abbrev racing : List Step
racing =
    dials "n" "10.0.0.1:9090" none
    ∷ dials "n" "10.0.0.1:9090" none
    ∷ dials "m" "10.0.0.2:9090" (some (external "refused"))
    ∷ settles 0
    ∷ settles 0
    ∷ removes "n"
    ∷ []

run-balanced_example :
    let s = run racing fresh_server in
    (s.pool.clients ≡ s.pool.conns)
    × IsMap s.pool.conns
    × ((n : ℕ)
        → times n s.pool.conns + times n s.pending + times_in n s.pool.closed
          ≡ once_if (ltb n s.pool.dialed))
run-balanced_example = run-balanced racing

-- The count itself is the state.
abbrev counting : CounterOps ℕ
counting = record {
  incr = λ n. (ok (pos (n + 1)), n + 1);
  expire = λ ttl n. n;
  ttl = λ n. pos 60_000_000_000;
}

abbrev value : ℕ → ℕ
value n = n

counting-IsCounter : IsCounter counting value
counting-IsCounter = record { incr_counts = λ n. inl (refl, refl); expire_keeps = λ ttl n. refl }

abbrev three_times : List Time
three_times = pos 1 ∷ pos 2 ∷ pos 3 ∷ []

abbrev same_int : ℤ → ℤ
same_int n = n

serve-bound_example :
    let (passed, failed, _) =
      serve counting value counting-IsCounter same_int same_int 2 three_times 0 in
    (passed ≤ failed + (2 - 0)) × ((0 < failed) ⊎ (passed ≡ min (count_of three_times) (2 - 0)))
serve-bound_example =
    serve-bound counting value counting-IsCounter same_int same_int 2 three_times 0
