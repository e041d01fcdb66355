-- ===== src/Pool/Balance.antt =====
-- That internal/grpcclient/pool.go loses no connection, whatever its goroutines do at once.
use mini_bk.Prelude.{
  ℕ, zero, suc, ◌+◌, ◌≡◌, refl, ap, ◌∙◌, arith, String, List, [], ◌∷◌, ◌++◌, Option, none, some,
  ltb, ◌==◌, get_elem?, Option-cases, inl, inr,
}
use mini_bk.Prelude.Maps.{lookup, insert, remove}
use mini_bk.Model.Errors.{Failure, Result, ok, err}
use mini_bk.Pool.{Pool, new_pool, close_conn, dial, settle, remove_node, close_conns, close}
use mini_bk.Pool.Keyed.{
  IsMap, once_if, times, times_in, times-append, times-insert_new, insert-IsMap, remove-same,
  times-remove_there, remove-IsMap,
}

-- The pool and the dials that have ended but are not settled yet.
pub record Server : Type 0 where
  pub pool : Pool
  pub pending : List (String × ℕ)

pub data Step : Type 0 where
  -- A call that finds no client and dials, with how the dial ends.
  dials : String → String → Option Failure → Step
  -- The pending dial at this place comes to the write lock.
  settles : ℕ → Step
  removes : String → Step
  closes : Step

drop_at : ℕ → List (String × ℕ) → List (String × ℕ)
drop_at n [] = []
drop_at zero (x ∷ xs) = xs
drop_at (suc n) (x ∷ xs) = x ∷ drop_at n xs

dialed_by : String → Result ℕ × Pool → Server → Server
dialed_by id (err e, p) s = record s { pool = p }
dialed_by id (ok conn, p) s = record s { pool = p; pending = s.pending ++ (id, conn) ∷ [] }

step : Step → Server → Server
unfolding dialed_by drop_at
step (dials id addr reply) s = elim (lookup id s.pool.clients) [
  | some _ ↦ s
  | none ↦ dialed_by id (dial id addr reply s.pool) s
]
step (settles n) s = elim (get_elem? s.pending n) [
  | none ↦ s
  | some call ↦ record s { pool = (settle call.0 call.1 s.pool).1; pending = drop_at n s.pending }
]
step (removes id) s = record s { pool = remove_node id s.pool }
step closes s = record s { pool = close s.pool }

pub run : List Step → Server → Server
unfolding step
run [] s = s
run (x ∷ xs) s = run xs (step x s)

-- In how many of the three places a connection is: the pool, the calls that are about to settle theirs, and
-- the closed ones.
pub places : ℕ → Server → ℕ
places n s = times n s.pool.conns + times n s.pending + times_in n s.pool.closed

-- Clients and connections are kept together, and every connection ever dialed is at one place, and no
-- other is anywhere.
pub record IsBalanced (s : Server) : Type 0 where
  pub together : s.pool.clients ≡ s.pool.conns
  pub keyed : IsMap s.pool.conns
  pub counted : (n : ℕ) → places n s ≡ once_if (ltb n s.pool.dialed)

times-drop_at :
    (n i : ℕ) (xs : List (String × ℕ)) (x : String × ℕ)
    → get_elem? xs i ≡ some x
    → times n xs ≡ once_if (x.1 == n) + times n (drop_at i xs)
unfolding drop_at times
times-drop_at n i [] x h = absurd (ground arith)
times-drop_at n zero (y ∷ xs) x h = let same : y ≡ x = ground (arith, h) in rw same refl
times-drop_at n (suc i) (y ∷ xs) x h = omega (arith, times-drop_at n i xs x h)

close_conns-closed :
    (m : List (String × ℕ)) (p : Pool)
    → ((n : ℕ) → times_in n (close_conns m p).closed ≡ times n m + times_in n p.closed)
      × ((close_conns m p).dialed ≡ p.dialed)
unfolding close_conns times times_in
close_conns-closed [] p = (λ n. omega arith, refl)
close_conns-closed ((id, conn) ∷ m) p =
    let rest = close_conns-closed m (close_conn conn p) in (λ n. omega (arith, rest.0 n), rest.1)

-- One more dial.
more-dialed : (n d : ℕ) → once_if (ltb n (suc d)) ≡ once_if (ltb n d) + once_if (d == n)
more-dialed n d = ground arith

none_dialed : (n : ℕ) → once_if (ltb n 0) ≡ 0
none_dialed n = ground arith

dials-IsBalanced :
    (id addr : String) (reply : Option Failure) (s : Server)
    → IsBalanced s
    → IsBalanced (step (dials id addr reply) s)
unfolding step dial places times times_in
dials-IsBalanced id addr (some e) s h = elim (Option-cases (lookup id s.pool.clients)) [
  | inl none_there ↦
      rw (none_there, step) (record { together = h.together; keyed = h.keyed; counted = h.counted })
  | inr (client, e') ↦ rw (e', step) h
]
dials-IsBalanced id addr none s h = elim (Option-cases (lookup id s.pool.clients)) [
  | inl none_there ↦
      rw (none_there, step)
        (record {
          together = h.together;
          keyed = h.keyed;
          counted = λ n. omega (
            arith,
            h.counted n,
            more-dialed n s.pool.dialed,
            times-append n s.pending ((id, s.pool.dialed) ∷ []),
          );
        })
  | inr (client, e') ↦ rw (e', step) h
]

settles-IsBalanced : (n : ℕ) (s : Server) → IsBalanced s → IsBalanced (step (settles n) s)
unfolding step settle places times_in
settles-IsBalanced n s h = elim (Option-cases (get_elem? s.pending n)) [
  | inl gone ↦ rw (gone, step) h
  | inr (call, there) ↦
      let fewer = λ (i : ℕ). times-drop_at i n s.pending call there in
      elim (Option-cases (lookup call.0 s.pool.clients)) [
        | inr (client, e) ↦
            rw (there, step)
              (rw (e, settle)
                (record {
                  together = h.together;
                  keyed = h.keyed;
                  counted = λ i. omega (arith, h.counted i, fewer i);
                }))
        | inl e ↦
            let absent : lookup call.0 s.pool.conns ≡ none = rw (← h.together) e in
            rw (there, step)
              (rw (e, settle)
                (record {
                  together = ap (insert call.0 call.1) h.together;
                  keyed = insert-IsMap call.0 call.1 s.pool.conns h.keyed;
                  counted = λ i. omega (
                    arith,
                    h.counted i,
                    fewer i,
                    times-insert_new i call.0 call.1 s.pool.conns absent,
                  );
                }))
      ]
]

removes-IsBalanced : (id : String) (s : Server) → IsBalanced s → IsBalanced (step (removes id) s)
unfolding step remove_node places times_in
removes-IsBalanced id s h = elim (Option-cases (lookup id s.pool.conns)) [
  | inl e ↦
      rw (e, remove_node)
        (record {
          together = ap (remove id) h.together ∙ remove-same id s.pool.conns e;
          keyed = h.keyed;
          counted = h.counted;
        })
  | inr (conn, e) ↦
      rw (e, remove_node)
        (record {
          together = ap (remove id) h.together;
          keyed = remove-IsMap id s.pool.conns h.keyed;
          counted =
              λ i. omega (arith, h.counted i, times-remove_there i id conn s.pool.conns h.keyed e);
        })
]

closes-IsBalanced : (s : Server) → IsBalanced s → IsBalanced (step closes s)
unfolding step close places times
closes-IsBalanced s h =
    let gone = close_conns-closed s.pool.conns s.pool in
    record {
      together = refl;
      keyed = tt;
      counted = λ n. rw gone.1 (omega (arith, gone.0 n, h.counted n));
    }

step-IsBalanced : (x : Step) (s : Server) → IsBalanced s → IsBalanced (step x s)
step-IsBalanced (dials id addr reply) s h = dials-IsBalanced id addr reply s h
step-IsBalanced (settles n) s h = settles-IsBalanced n s h
step-IsBalanced (removes id) s h = removes-IsBalanced id s h
step-IsBalanced closes s h = closes-IsBalanced s h

run-IsBalanced : (xs : List Step) (s : Server) → IsBalanced s → IsBalanced (run xs s)
unfolding run
run-IsBalanced [] s h = h
run-IsBalanced (x ∷ xs) s h = run-IsBalanced xs (step x s) (step-IsBalanced x s h)

abbrev pub fresh_server : Server
fresh_server = record { pool = new_pool; pending = [] }

-- From a new pool on, in whatever order goroutines look up, dial, settle, remove and close: every
-- node with a client has exactly one connection, the one that the client was made from, no node is
-- twice in the pool, and each connection that was dialed is exactly once at exactly one of three
-- places: in the pool, with a call that is about to settle it, or among the closed ones. So no
-- connection in the pool is closed.
pub run-balanced :
    (xs : List Step)
    → let s = run xs fresh_server in
      (s.pool.clients ≡ s.pool.conns)
      × IsMap s.pool.conns
      × ((n : ℕ)
          → times n s.pool.conns + times n s.pending + times_in n s.pool.closed
            ≡ once_if (ltb n s.pool.dialed))
unfolding places new_pool times times_in
run-balanced xs =
    let h =
      run-IsBalanced xs fresh_server
        (record { together = refl; keyed = tt; counted = λ n. omega (arith, none_dialed n) }) in
    (h.together, h.keyed, h.counted)
