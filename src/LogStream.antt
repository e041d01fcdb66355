-- ===== src/LogStream.antt =====
-- internal/logstream/logstream.go. Redis is not in the repository: `R` is what it holds, and XADD and XREAD are
-- a parameter.
pub mod Laws
pub mod Appended
use Prim.Native.String.{◌++◌ as ◌<>◌}
use mini_bk.Prelude.{
  ℕ, String, List, [], ◌∷◌, Option, none, some, Bool, true, false, if◌then◌else◌, str_eq,
}
use mini_bk.Prelude.Int.{ℤ, pos}
use mini_bk.Prelude.Maps.{lookup}
use mini_bk.Prelude.Decimal.{decimal, is_int, atoi}
use mini_bk.Model.Errors.{Failure, Result, ok, err}

pub record LogEntry : Type 0 where
  pub id : String
  pub task_uid : String
  pub line : String
  pub stream : String
  pub timestamp : ℤ

-- An entry of a Redis stream: its id, and its fields with their texts.
pub record Message : Type 0 where
  pub id : String
  pub values : List (String × String)

-- How XREAD ends: with the messages of each stream, with `redis.Nil` after its time, with another
-- error, or not at all.
pub data ReadAnswer : Type 0 where
  arrived : List (List Message) → ReadAnswer
  no_news waits : ReadAnswer
  refused : Failure → ReadAnswer

-- XADD has the stream, the greatest length and the fields; XREAD has the stream, the id to read after,
-- the greatest count, and the time to wait, where 0 is for ever.
pub record StreamOps (R : Type 0) : Type 0 where
  pub x_add : String → ℕ → List (String × String) → R → Option Failure × R
  pub x_read : String → String → ℕ → ℤ → R → ReadAnswer × R

unfoldable pub stream_key : String → String
stream_key uid = "tasks:log:" <> uid

-- The fields of a line; the client sends an int as its decimal.
abbrev pub fields : String → String → ℤ → List (String × String)
fields line stream now = ("line", line) ∷ ("stream", stream) ∷ ("timestamp", decimal now) ∷ []

abbrev or_empty : Option String → String
or_empty none = ""
or_empty (some s) = s

-- `ParseInt`, whose error leaves the zero value.
unfoldable pub parsed_time : Option String → ℤ
parsed_time none = pos 0
parsed_time (some s) = if is_int s then atoi s else pos 0

unfoldable pub entry_of : String → Message → LogEntry
unfolding parsed_time
entry_of uid m = record {
  id = m.id;
  task_uid = uid;
  line = or_empty (lookup "line" m.values);
  stream = or_empty (lookup "stream" m.values);
  timestamp = parsed_time (lookup "timestamp" m.values);
}

unfoldable pub entries : String → List Message → List LogEntry
entries uid [] = []
entries uid (m ∷ ms) = entry_of uid m ∷ entries uid ms

-- `none` where the call does not return.
unfoldable pub entries_of : String → ReadAnswer → Option (Result (List LogEntry))
unfolding entries
entries_of uid waits = none
entries_of uid no_news = some (ok [])
entries_of uid (refused e) = some (err e)
entries_of uid (arrived []) = some (ok [])
entries_of uid (arrived (ms ∷ more)) = some (ok (entries uid ms))

module _ {R : Type 0} (o : StreamOps R) where
  -- Append at a time in milliseconds.
  unfoldable pub append : String → String → String → ℤ → R → Option Failure × R
  append uid line stream now r = o.x_add (stream_key uid) 10_000 (fields line stream now) r

  abbrev pub block_of : String → ℤ
  block_of last = if str_eq last "0" then pos 0 else pos 1_000_000_000

  unfoldable pub read : String → String → ℕ → R → Option (Result (List LogEntry)) × R
  read uid last count r =
      let (answer, r') = o.x_read (stream_key uid) last count (block_of last) r in
      (entries_of uid answer, r')
