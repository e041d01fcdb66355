-- ===== src/RateLimit/Window.antt =====
-- How many requests of a client the handler of internal/middleware/ratelimit.go lets pass while the
-- counter lives.
use Prim.Native.Nat.{min}
use mini_bk.Prelude.{
  ℕ, suc, ◌+◌, ◌≤◌, ◌<◌, ◌-◌, leb, ◌≡◌, refl, ◌∙◌, arith, List, [], ◌∷◌, Bool, true, false, inl,
  inr, ◌⊎◌,
}
use mini_bk.Prelude.Int.{ℤ, pos}
use mini_bk.Model.Errors.{Failure, Result, ok, err}
use mini_bk.Model.Task.{Time}
use mini_bk.RateLimit.{CounterOps, rate_limit, counted, pass_on}

-- What INCR and EXPIRE are documented to do while the key does not expire: `value` is the count that
-- the key holds. A failed INCR may have counted or not.
pub record IsCounter {R : Type 0} (o : CounterOps R) (value : R → ℕ) : Type 0 where
  pub incr_counts :
      (r : R)
      → ((o.incr r).0 ≡ ok (pos (value r + 1))) × (value (o.incr r).1 ≡ value r + 1)
        ⊎ ((e : Failure) × ((o.incr r).0 ≡ err e) × (value r ≤ value (o.incr r).1))
  pub expire_keeps : (ttl : ℤ) (r : R) → value (o.expire ttl r) ≡ value r

abbrev pub count_of : List Time → ℕ
count_of [] = 0
count_of (_ ∷ rest) = suc (count_of rest)

module _ {R : Type 0} (o : CounterOps R) (value : R → ℕ) (laws : IsCounter o value)
    (seconds_of unix_of : ℤ → ℤ) where
  abbrev add_if : Bool → ℕ → ℕ
  add_if true n = suc n
  add_if false n = n

  abbrev is_err : Result ℤ → Bool
  is_err (ok _) = false
  is_err (err _) = true

  -- Requests at these times: how many pass, for how many INCR fails, and Redis after them.
  pub serve : ℕ → List Time → R → ℕ × ℕ × R
  serve limit [] r = (0, 0, r)
  serve limit (now ∷ rest) r =
      let (a, r') = rate_limit o seconds_of unix_of true (pos limit) now r in
      let (passed, failed, last) = serve limit rest r' in
      (add_if a.next passed, add_if (is_err (o.incr r).0) failed, last)

  counted-next :
      (limit : ℕ) (now : Time) (count : ℕ) (r : R)
      → (counted o seconds_of unix_of (pos limit) now (pos count) r).0.next ≡ leb count limit
  unfolding counted
  counted-next limit now count r = ground arith

  counted-value :
      (limit : ℤ) (now : Time) (count : ℤ) (r : R)
      → value (counted o seconds_of unix_of limit now count r).1 ≡ value r
  unfolding counted
  counted-value limit now count r = ground (arith, laws.expire_keeps (pos 60_000_000_000) r)

  -- One request: counted, or passed since Redis failed.
  abbrev Request : ℕ → Time → R → Type 0
  Request limit now r =
      let (a, r') = rate_limit o seconds_of unix_of true (pos limit) now r in
      ((is_err (o.incr r).0 ≡ false)
        × (a.next ≡ leb (value r + 1) limit)
        × (value r' ≡ value r + 1))
      ⊎ ((is_err (o.incr r).0 ≡ true) × (a.next ≡ true) × (value r ≤ value r'))

  request : (limit : ℕ) (now : Time) (r : R) → Request limit now r
  unfolding rate_limit pass_on
  request limit now r = elim (laws.incr_counts r) [
    | inl (e, v) ↦ inl (
      rw e refl,
      rw (e, rate_limit) (counted-next limit now (value r + 1) (o.incr r).1),
      rw (e, rate_limit) (counted-value (pos limit) now (pos (value r + 1)) (o.incr r).1 ∙ v),
    )
    | inr (x, e, v) ↦ inr (rw e refl, rw (e, rate_limit) refl, rw (e, rate_limit) v)
  ]

  abbrev Bounded : (limit n v passed failed : ℕ) → Type 0
  Bounded limit n v passed failed =
      (passed ≤ failed + (limit - v)) × ((0 < failed) ⊎ (passed ≡ min n (limit - v)))

  count_step :
      (limit n v v' passed failed : ℕ) (next fails : Bool)
      → ((fails ≡ false) × (next ≡ leb (v + 1) limit) × (v' ≡ v + 1))
        ⊎ ((fails ≡ true) × (next ≡ true) × (v ≤ v'))
      → Bounded limit n v' passed failed
      → Bounded limit (suc n) v (add_if next passed) (add_if fails failed)
  count_step limit n v v' passed failed next fails (inl (e, m, w)) (bound, exact) = ground arith
  count_step limit n v v' passed failed next fails (inr (e, m, w)) (bound, exact) = ground arith

  -- While the key of the counter does not expire, at most the limit less what was counted before may
  -- pass, and for each failure of Redis one more; if Redis does not fail, then exactly so many pass as
  -- the limit leaves, or all.
  pub serve-bound :
      (limit : ℕ) (times : List Time) (r : R)
      → let (passed, failed, _) = serve limit times r in
        (passed ≤ failed + (limit - value r))
        × ((0 < failed) ⊎ (passed ≡ min (count_of times) (limit - value r)))
  unfolding serve
  serve-bound limit [] r = (omega arith, inr (omega arith))
  serve-bound limit (now ∷ rest) r =
      let (a, r') = rate_limit o seconds_of unix_of true (pos limit) now r in
      let (passed, failed, _) = serve limit rest r' in
      count_step limit (count_of rest) (value r) (value r') passed failed a.next
        (is_err (o.incr r).0) (request limit now r) (serve-bound limit rest r')
