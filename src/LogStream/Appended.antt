-- ===== src/LogStream/Appended.antt =====
-- From the output of a process, through the log in Redis, to a reader of the log: streamOutput of
-- internal/executor/executor.go and internal/logstream/logstream.go.
use mini_bk.Prelude.{
  ℕ, suc, ◌+◌, ◌≤◌, String, List, [], ◌∷◌, ◌++◌, some, ◌≡◌, refl, sym, ap, ◌∙◌, arith, length,
  length-append,
}
use mathlib.Core.List.{append_assoc, append-nil}
use mini_bk.Prelude.Int.{pos}
use mini_bk.Prelude.Maps.{lookup}
use mini_bk.Prelude.Decimal.{max_int, decimal}
use mini_bk.Prelude.Decimal.Printed.{decimal-read}
use mini_bk.LogStream.{
  LogEntry, Message, StreamOps, stream_key, fields, parsed_time, entry_of, entries, append,
}
use mini_bk.LogStream.Laws.{IsStream}
use mini_bk.Executor.Output.{stream_lines}

-- The entry has this line, with the stream's name and the time of it.
unfoldable pub IsLine : String → String → ℕ → String → LogEntry → Type 0
IsLine uid name time l e =
    (e.task_uid ≡ uid) × (e.line ≡ l) × (e.stream ≡ name) × (e.timestamp ≡ pos time)

-- The entries are these lines, in order.
unfoldable pub AreLines : String → String → (ℕ → ℕ) → ℕ → List String → List LogEntry → Type 0
unfolding IsLine
AreLines uid name clock n [] [] = Unit
AreLines uid name clock n [] (e ∷ es) = ⊥
AreLines uid name clock n (l ∷ ls) [] = ⊥
AreLines uid name clock n (l ∷ ls) (e ∷ es) =
    IsLine uid name (clock n) l e × AreLines uid name clock (suc n) ls es

parsed_time-fields : (t : ℕ) → t ≤ max_int → parsed_time (some (decimal (pos t))) ≡ pos t
unfolding parsed_time
parsed_time-fields t fits = let (int, same) = decimal-read t fits in rw (int) same

pub entry_of-fields :
    (uid name l id : String) (t : ℕ)
    → t ≤ max_int
    → IsLine uid name t l (entry_of uid (record { id = id; values = fields l name (pos t) }))
unfolding IsLine entry_of lookup
entry_of-fields uid name l id t fits = (refl, refl, refl, parsed_time-fields t fits)

pub length-AreLines :
    (uid name : String) (clock : ℕ → ℕ) (n : ℕ) (ls : List String) (ms : List Message)
    → AreLines uid name clock n ls (entries uid ms)
    → length ms ≡ length ls
unfolding AreLines entries
length-AreLines uid name clock n [] [] lines = refl
length-AreLines uid name clock n [] (m ∷ ms) lines = absurd lines
length-AreLines uid name clock n (l ∷ ls) [] lines = absurd lines
length-AreLines uid name clock n (l ∷ ls) (m ∷ ms) lines =
    ap suc (length-AreLines uid name clock (suc n) ls ms lines.1)

module _ {R : Type 0} (o : StreamOps R) (messages : String → R → List Message)
    (laws : IsStream o messages) where
  -- The log after some lines were appended.
  unfoldable pub Extends : String → String → (ℕ → ℕ) → ℕ → List String → R → R → Type 0
  Extends uid name clock n ls r r' =
      (ms : List Message) × (messages (stream_key uid) r' ≡ messages (stream_key uid) r ++ ms)
      × AreLines uid name clock n ls (entries uid ms)

  pub stream_lines-Extends :
      (uid name : String) (clock : ℕ → ℕ) (n : ℕ) (ls : List String) (r : R)
      → ((k : ℕ) → clock k ≤ max_int)
      → length (messages (stream_key uid) r) + length ls ≤ 10_000
      → Extends uid name clock n ls r (stream_lines o uid name (λ k. pos (clock k)) n ls r)
  unfolding Extends stream_lines AreLines entries append
  stream_lines-Extends uid name clock n [] r early room =
      ([], sym (append-nil (messages (stream_key uid) r)), tt)
  stream_lines-Extends uid name clock n (l ∷ ls) r early room =
      let key = stream_key uid in
      let fs = fields l name (pos (clock n)) in
      let r1 = (o.x_add key 10_000 fs r).1 in
      let m : Message = record { id = laws.new_id key r; values = fs } in
      let grown = laws.x_add-appends key 10_000 fs r (omega (arith, room)) in
      let longer : length (messages key r1) ≡ length (messages key r) + 1 =
        ap length grown ∙ length-append (messages key r) (m ∷ []) in
      let (ms, after, lines) =
        stream_lines-Extends uid name clock (suc n) ls r1 early (omega (arith, room, longer)) in
      (
        m ∷ ms,
        after ∙ ap (λ xs. xs ++ ms) grown ∙ append_assoc (messages key r) (m ∷ []) ms,
        (entry_of-fields uid name l (laws.new_id key r) (clock n) (early n), lines),
      )
