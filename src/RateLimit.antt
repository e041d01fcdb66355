-- ===== src/RateLimit.antt =====
-- internal/middleware/ratelimit.go. Redis is not in the repository: `R` is its state, and the operations on
-- the counter of one client's key are a parameter. Numbers in headers are written as they are before
-- they are printed.
pub mod Window
use mini_bk.Prelude.{
  String, List, [], ◌∷◌, Option, none, some, Bool, true, false, not, ◌&&◌, if◌then◌else◌,
}
use mini_bk.Prelude.Int.{ℤ, pos, ltb_ℤ, ◌-ℤ◌, ◌+ℤ◌}
use mini_bk.Model.Errors.{Result, ok, err}
use mini_bk.Model.Task.{Time}

-- INCR, EXPIRE and TTL of the key; the error of EXPIRE is not looked at.
pub record CounterOps (R : Type 0) : Type 0 where
  pub incr : R → Result ℤ × R
  pub expire : ℤ → R → R
  pub ttl : R → ℤ

-- What the handler answers: the headers, the status of a refusal, and whether the next handler runs.
pub record Answer : Type 0 where
  pub headers : List (String × ℤ)
  pub refused_with : Option ℤ
  pub next : Bool

abbrev is_one : ℤ → Bool
is_one count = not (ltb_ℤ count (pos 1)) && not (ltb_ℤ (pos 1) count)

-- `ttl.Seconds()` and `Unix()` of the time that the window ends are `seconds_of` and `unix_of`.
module _ {R : Type 0} (o : CounterOps R) (seconds_of unix_of : ℤ → ℤ) where
  too_many : ℤ → Time → R → Answer
  too_many limit now r = record {
    headers =
        ("X-RateLimit-Limit", limit)
        ∷ ("X-RateLimit-Remaining", pos 0)
        ∷ ("X-RateLimit-Reset", unix_of (now +ℤ o.ttl r))
        ∷ ("Retry-After", seconds_of (o.ttl r))
        ∷ [];
    refused_with = some (pos 429);
    next = false;
  }

  passes : ℤ → ℤ → Answer
  passes limit count = record {
    headers = ("X-RateLimit-Limit", limit) ∷ ("X-RateLimit-Remaining", limit -ℤ count) ∷ [];
    refused_with = none;
    next = true;
  }

  unfoldable pub pass_on : Answer
  pass_on = record { headers = []; refused_with = none; next = true }

  unfoldable pub counted : ℤ → Time → ℤ → R → Answer × R
  unfolding too_many passes
  counted limit now count r =
      let r' = if is_one count then o.expire (pos 60_000_000_000) r else r in
      (if ltb_ℤ limit count then too_many limit now r' else passes limit count, r')

  unfoldable pub rate_limit : Bool → ℤ → Time → R → Answer × R
  rate_limit enabled limit now r = elim enabled [
    | false ↦ (pass_on, r)
    | true ↦
        let (reply, r') = o.incr r in
        elim reply [ err _ ↦ (pass_on, r') | ok count ↦ counted limit now count r' ]
  ]
