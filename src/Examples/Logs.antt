-- ===== src/Examples/Logs.antt =====
-- Runs of internal/executor/executor.go with their log in a Redis in memory.
use mini_bk.Prelude.{
  ℕ, ◌+◌, String, List, [], ◌∷◌, ◌++◌, Bool, ◌≡◌, refl, none, some, arith, length, length-append,
  leb, ltb, if◌then◌else◌, str_eq, eq_refl, ◌≤◌,
}
use mini_bk.Prelude.Int.{ℤ, pos}
use mini_bk.Prelude.Decimal.{decimal}
use mini_bk.LogStream.{Message, ReadAnswer, arrived, no_news, waits, StreamOps, read}
use mini_bk.LogStream.Laws.{IsStream}
use mini_bk.Executor.Outcome.{active, exit_status, run_result}
use mini_bk.Executor.Output.{unlines, text_length}
use mini_bk.Executor.Lines.{IsPlain, ArePlain, before_long}
use mini_bk.Executor.Run.{Command, Ran, ended, run}
use mini_bk.Executor.Logged.{Answers, read-run}
use mini_bk.Examples.{task_a}

-- The streams of a Redis by their keys.
abbrev Streams : Type 0
Streams = String → List Message

-- The oldest message goes where there are too many.
abbrev trimmed : ℕ → List Message → List Message
trimmed most [] = []
trimmed most (m ∷ ms) = if ltb most (length (m ∷ ms)) then ms else m ∷ ms

abbrev with_message : String → ℕ → List (String × String) → Streams → Streams
with_message key most fs r k =
    if str_eq k key
    then trimmed most
        (r key ++ (record { id = decimal (pos (length (r key) + 1)); values = fs } ∷ []))
    else r k

abbrev answer_from : ℕ → List Message → ReadAnswer
answer_from count [] = waits
answer_from count (m ∷ ms) =
    if leb (length (m ∷ ms)) count then arrived ((m ∷ ms) ∷ []) else arrived ((m ∷ []) ∷ [])

-- No message ever comes after another id than "0" here.
abbrev streams : StreamOps Streams
streams = record {
  x_add = λ key most fs r. (none, with_message key most fs r);
  x_read =
      λ key last count block r. (if str_eq last "0" then answer_from count (r key) else no_news, r);
}

abbrev messages : String → Streams → List Message
messages key r = r key

trimmed_lem : (most : ℕ) (ms : List Message) → length ms ≤ most → trimmed most ms ≡ ms
trimmed_lem most [] h = refl
trimmed_lem most (m ∷ ms) h = ground (arith, h)

streams-IsStream : IsStream streams messages
streams-IsStream = record {
  new_id = λ key r. decimal (pos (length (r key) + 1));
  x_add-works = λ key most fs r. refl;
  x_add-appends = λ key most fs r room.
      let m : Message = record { id = decimal (pos (length (r key) + 1)); values = fs } in
      rw (eq_refl key) (
        trimmed_lem most (r key ++ (m ∷ [])) (omega (arith, room, length-append (r key) (m ∷ []))));
  x_read-start = λ key count r m ms here few. rw here (ground (arith, few));
  x_read-empty = λ key count r here. rw here refl;
}

abbrev printing : Command → ℤ → Ran
printing c secs =
    ended (unlines ("one" ∷ "two" ∷ [])) (unlines ("bad" ∷ [])) active
      (exit_status (pos 3) "exit status 3")

abbrev alternate : ℕ → Bool
alternate n = leb n 0

two_lines-ArePlain : ArePlain ("one" ∷ "two" ∷ [])
unfolding ArePlain IsPlain
two_lines-ArePlain = (
  (refl, refl, (refl, refl, (refl, refl, tt))),
  ((refl, refl, (refl, refl, (refl, refl, tt))), tt),
)

one_line-ArePlain : ArePlain ("bad" ∷ [])
unfolding ArePlain IsPlain
one_line-ArePlain = ((refl, refl, (refl, refl, (refl, refl, tt))), tt)

few_lines : length (before_long ("one" ∷ "two" ∷ [])) + length (before_long ("bad" ∷ [])) ≤ 10_000
unfolding before_long text_length
few_lines = omega arith

few_enough : length (before_long ("one" ∷ "two" ∷ [])) + length (before_long ("bad" ∷ [])) ≤ 100
unfolding before_long text_length
few_enough = omega arith

read-run_example :
    (r' : Streams) × (run streams printing [] (λ i. pos 7) alternate task_a (some (λ k. [])) ≡ (
      run_result active
          (exit_status (pos 3) "exit status 3")
          (unlines (before_long ("one" ∷ "two" ∷ [])))
          (unlines (before_long ("bad" ∷ []))),
      some r',
    ))
    × Answers streams messages streams-IsStream "a"
        (λ i. 7)
        (before_long ("one" ∷ "two" ∷ []))
        (before_long ("bad" ∷ []))
        (read streams "a" "0" 100 r').0
read-run_example =
    read-run streams messages streams-IsStream printing [] (λ i. 7) alternate task_a
      ("one" ∷ "two" ∷ []) ("bad" ∷ []) (exit_status (pos 3) "exit status 3") 100 (λ k. []) refl
      (λ i. omega arith) two_lines-ArePlain one_line-ArePlain refl few_lines few_enough
