-- ===== src/Executor/Logged.antt =====
-- A whole run of internal/executor/executor.go with its log of internal/logstream/logstream.go.
use mathlib.Core.List.{append_assoc}
use mini_bk.Prelude.{
  ℕ, suc, ◌+◌, ◌≤◌, ◌<◌, String, List, [], ◌∷◌, ◌++◌, Option, none, some, Bool, ◌≡◌, refl, ap, ◌∙◌,
  arith, length, length-append, Bool-cases, inl, inr,
}
use mini_bk.Prelude.Int.{ℤ, pos}
use mini_bk.Prelude.Decimal.{max_int}
use mini_bk.Model.Errors.{Result, ok}
use mini_bk.Model.Task.{Task}
use mini_bk.LogStream.{
  LogEntry, Message, StreamOps, stream_key, fields, entries, entries_of, append, read,
}
use mini_bk.LogStream.Laws.{IsStream}
use mini_bk.LogStream.Appended.{
  IsLine, AreLines, Extends, stream_lines-Extends, entry_of-fields, length-AreLines,
}
use mini_bk.Executor.Outcome.{WaitResult, active, run_result, run_timeout}
use mini_bk.Executor.Output.{unlines}
use mini_bk.Executor.Lines.{ArePlain, before_long, scanned-unlines}
use mini_bk.Executor.Run.{Command, Ran, ended, command_of, stream_both, both_logged, run}

-- The entries are an interleaving of the lines of the two outputs, in order each.
pub data IsMerge (uid : String) (clock : ℕ → ℕ)
    : ℕ → List String → List String → List LogEntry → Type 0 where
  no_line : {n : ℕ} → IsMerge uid clock n [] [] []
  from_stdout :
      {n : ℕ} {l : String} {ls ks : List String} {e : LogEntry} {es : List LogEntry}
      → IsLine uid "stdout" (clock n) l e
      → IsMerge uid clock (suc n) ls ks es
      → IsMerge uid clock n (l ∷ ls) ks (e ∷ es)
  from_stderr :
      {n : ℕ} {k : String} {ls ks : List String} {e : LogEntry} {es : List LogEntry}
      → IsLine uid "stderr" (clock n) k e
      → IsMerge uid clock (suc n) ls ks es
      → IsMerge uid clock n ls (k ∷ ks) (e ∷ es)

stdout-IsMerge :
    (uid : String) (clock : ℕ → ℕ) (n : ℕ) (ls : List String) (es : List LogEntry)
    → AreLines uid "stdout" clock n ls es
    → IsMerge uid clock n ls [] es
unfolding AreLines
stdout-IsMerge uid clock n [] [] h = no_line
stdout-IsMerge uid clock n [] (e ∷ es) h = absurd h
stdout-IsMerge uid clock n (l ∷ ls) [] h = absurd h
stdout-IsMerge uid clock n (l ∷ ls) (e ∷ es) (here, rest) =
    from_stdout here (stdout-IsMerge uid clock (suc n) ls es rest)

stderr-IsMerge :
    (uid : String) (clock : ℕ → ℕ) (n : ℕ) (ls : List String) (es : List LogEntry)
    → AreLines uid "stderr" clock n ls es
    → IsMerge uid clock n [] ls es
unfolding AreLines
stderr-IsMerge uid clock n [] [] h = no_line
stderr-IsMerge uid clock n [] (e ∷ es) h = absurd h
stderr-IsMerge uid clock n (l ∷ ls) [] h = absurd h
stderr-IsMerge uid clock n (l ∷ ls) (e ∷ es) (here, rest) =
    from_stderr here (stderr-IsMerge uid clock (suc n) ls es rest)

module _ {R : Type 0} (o : StreamOps R) (messages : String → R → List Message)
    (laws : IsStream o messages) where
  -- The log after the lines of both outputs were appended.
  BothLogged : String → (ℕ → ℕ) → ℕ → List String → List String → R → R → Type 0
  BothLogged uid clock n ls ks r r' =
      (ms : List Message) × (messages (stream_key uid) r' ≡ messages (stream_key uid) r ++ ms)
      × (length ms ≡ length ls + length ks)
      × IsMerge uid clock n ls ks (entries uid ms)

  -- One more message before those of a log that was extended.
  extended :
      (uid name l : String) (t : ℕ) (r r' : R) (ms : List Message)
      → length (messages (stream_key uid) r) < 10_000
      → messages (stream_key uid) r'
        ≡ messages (stream_key uid) (append o uid l name (pos t) r).1 ++ ms
      → messages (stream_key uid) r'
        ≡ messages (stream_key uid) r
          ++ (record { id = laws.new_id (stream_key uid) r; values = fields l name (pos t) } ∷ ms)
  unfolding append
  extended uid name l t r r' ms room after =
      let key = stream_key uid in
      let fs = fields l name (pos t) in
      after
      ∙ ap (λ xs. xs ++ ms) (laws.x_add-appends key 10_000 fs r room)
      ∙ append_assoc (messages key r) (record { id = laws.new_id key r; values = fs } ∷ []) ms

  longer :
      (uid name l : String) (t : ℕ) (r : R)
      → length (messages (stream_key uid) r) < 10_000
      → length (messages (stream_key uid) (append o uid l name (pos t) r).1)
        ≡ length (messages (stream_key uid) r) + 1
  unfolding append
  longer uid name l t r room =
      let key = stream_key uid in
      let fs = fields l name (pos t) in
      ap length (laws.x_add-appends key 10_000 fs r room)
      ∙ length-append (messages key r) (record { id = laws.new_id key r; values = fs } ∷ [])

  stream_both-BothLogged :
      (uid : String) (clock : ℕ → ℕ) (turn : ℕ → Bool) (n : ℕ) (ls ks : List String) (r : R)
      → ((i : ℕ) → clock i ≤ max_int)
      → length (messages (stream_key uid) r) + (length ls + length ks) ≤ 10_000
      → BothLogged uid clock n ls ks r (stream_both o uid (λ i. pos (clock i)) turn n ls ks r)
  unfolding BothLogged stream_both Extends entries
  stream_both-BothLogged uid clock turn n [] ks r early room =
      let (ms, after, lines) =
        stream_lines-Extends o messages laws uid "stderr" clock n ks r early
          (omega (arith, room)) in
      (
        ms,
        after,
        length-AreLines uid "stderr" clock n ks ms lines ∙ omega arith,
        stderr-IsMerge uid clock n ks (entries uid ms) lines,
      )
  stream_both-BothLogged uid clock turn n (l ∷ ls) [] r early room =
      let (ms, after, lines) =
        stream_lines-Extends o messages laws uid "stdout" clock n (l ∷ ls) r early
          (omega (arith, room)) in
      (
        ms,
        after,
        length-AreLines uid "stdout" clock n (l ∷ ls) ms lines ∙ omega arith,
        stdout-IsMerge uid clock n (l ∷ ls) (entries uid ms) lines,
      )
  stream_both-BothLogged uid clock turn n (l ∷ ls) (k ∷ ks) r early room =
      let here : length (messages (stream_key uid) r) < 10_000 = omega (arith, room) in
      let r1 = (append o uid l "stdout" (pos (clock n)) r).1 in
      let r2 = (append o uid k "stderr" (pos (clock n)) r).1 in
      elim (Bool-cases (turn n)) [
        | inl e ↦
            let (ms, after, many, merge) =
              stream_both-BothLogged uid clock turn (suc n) ls (k ∷ ks) r1 early
                (omega (arith, room, longer uid "stdout" l (clock n) r here)) in
            rw e (
              record {
                id = laws.new_id (stream_key uid) r;
                values = fields l "stdout" (pos (clock n));
              }
                  ∷ ms,
              extended uid "stdout" l (clock n) r
                  (stream_both o uid (λ i. pos (clock i)) turn (suc n) ls (k ∷ ks) r1) ms here
                  after,
              omega (arith, many),
              from_stdout
                  (entry_of-fields uid "stdout" l (laws.new_id (stream_key uid) r) (clock n)
                    (early n))
                  merge,
            )
        | inr e ↦
            let (ms, after, many, merge) =
              stream_both-BothLogged uid clock turn (suc n) (l ∷ ls) ks r2 early
                (omega (arith, room, longer uid "stderr" k (clock n) r here)) in
            rw e (
              record {
                id = laws.new_id (stream_key uid) r;
                values = fields k "stderr" (pos (clock n));
              }
                  ∷ ms,
              extended uid "stderr" k (clock n) r
                  (stream_both o uid (λ i. pos (clock i)) turn (suc n) (l ∷ ls) ks r2) ms here
                  after,
              omega (arith, many),
              from_stderr
                  (entry_of-fields uid "stderr" k (laws.new_id (stream_key uid) r) (clock n)
                    (early n))
                  merge,
            )
      ]

  -- What the first Read answers of the two outputs.
  pub Answers :
      String → (ℕ → ℕ) → List String → List String → Option (Result (List LogEntry)) → Type 0
  Answers uid clock [] [] answer = answer ≡ none
  Answers uid clock ls ks answer =
      (es : List LogEntry) × (answer ≡ some (ok es)) × IsMerge uid clock 0 ls ks es

  read-empty :
      (uid : String) (count : ℕ) (r : R)
      → messages (stream_key uid) r ≡ []
      → (read o uid "0" count r).0 ≡ none
  unfolding read entries_of
  read-empty uid count r here = rw (laws.x_read-empty (stream_key uid) count r here) refl

  read-start :
      (uid : String) (count : ℕ) (r : R) (m : Message) (ms : List Message)
      → messages (stream_key uid) r ≡ m ∷ ms
      → length (m ∷ ms) ≤ count
      → (read o uid "0" count r).0 ≡ some (ok (entries uid (m ∷ ms)))
  unfolding read entries_of entries
  read-start uid count r m ms here few =
      ap (λ a. entries_of uid a) (laws.x_read-start (stream_key uid) count r m ms here few)

  read-Answers :
      (uid : String) (clock : ℕ → ℕ) (ls ks : List String) (count : ℕ) (r : R) (ms : List Message)
      → messages (stream_key uid) r ≡ ms
      → length ms ≡ length ls + length ks
      → length ls + length ks ≤ count
      → IsMerge uid clock 0 ls ks (entries uid ms)
      → Answers uid clock ls ks (read o uid "0" count r).0
  unfolding Answers
  read-Answers uid clock [] [] count r [] here many few merge = read-empty uid count r here
  read-Answers uid clock [] [] count r (m ∷ ms) here many few merge = absurd (omega (arith, many))
  read-Answers uid clock [] (k ∷ ks) count r [] here many few merge = absurd (omega (arith, many))
  read-Answers uid clock [] (k ∷ ks) count r (m ∷ ms) here many few merge =
      (entries uid (m ∷ ms), read-start uid count r m ms here (omega (arith, many, few)), merge)
  read-Answers uid clock (l ∷ ls) ks count r [] here many few merge = absurd (omega (arith, many))
  read-Answers uid clock (l ∷ ls) ks count r (m ∷ ms) here many few merge =
      (entries uid (m ∷ ms), read-start uid count r m ms here (omega (arith, many, few)), merge)

  -- A process starts, prints plain lines to its two outputs and ends before its deadline comes or it is
  -- canceled, and nothing was logged for its task before. Then the result of the run has, of each output, the lines before the first one of 65536
  -- bytes or more, with a newline after each; and whatever the order in which the two goroutines take
  -- their turns, the first Read of the log, if it asks for as many entries, answers with an interleaving
  -- of exactly these lines, each with the task, the name of its output and the time it was logged, and
  -- does not return if there is no such line. (At most 10000 lines, and times that fit an int.)
  pub read-run :
      (spawn : Command → ℤ → Ran) (environ : List String) (clock : ℕ → ℕ) (turn : ℕ → Bool)
      (t : Task) (ls ks : List String) (wait : WaitResult) (count : ℕ) (r : R)
      → spawn (command_of environ t) (run_timeout t.timeout_sec)
        ≡ ended (unlines ls) (unlines ks) active wait
      → ((i : ℕ) → clock i ≤ max_int)
      → ArePlain ls
      → ArePlain ks
      → messages (stream_key t.task_uid) r ≡ []
      → length (before_long ls) + length (before_long ks) ≤ 10_000
      → length (before_long ls) + length (before_long ks) ≤ count
      → (r' : R) × (run o spawn environ (λ i. pos (clock i)) turn t (some r)
          ≡ (run_result active wait (unlines (before_long ls)) (unlines (before_long ks)), some r'))
        × Answers t.task_uid clock
            (before_long ls)
            (before_long ks)
            (read o t.task_uid "0" count r').0
  unfolding run both_logged BothLogged
  read-run spawn environ clock turn t ls ks wait count r ran early plain plain' fresh room few =
      let out = before_long ls in
      let errs = before_long ks in
      let r' = stream_both o t.task_uid (λ i. pos (clock i)) turn 0 out errs r in
      let (ms, after, many, merge) =
        stream_both-BothLogged t.task_uid clock turn 0 out errs r early
          (rw fresh (omega (arith, room))) in
      (
        r',
        rw (run, ran, scanned-unlines ls plain, scanned-unlines ks plain') refl,
        read-Answers t.task_uid clock out errs count r' ms (after ∙ ap (λ xs. xs ++ ms) fresh) many
            few merge,
      )
