-- ===== src/LogStream/Laws.antt =====
-- What internal/logstream/logstream.go relies on of Redis: a stream that XADD appends to and XREAD reads
-- from its start.
use mini_bk.Prelude.{ℕ, String, List, [], ◌∷◌, ◌++◌, none, ◌≡◌, length, ◌<◌, ◌≤◌}
use mini_bk.Prelude.Int.{pos}
use mini_bk.LogStream.{StreamOps, Message, arrived, waits}

-- The messages of a stream that is not longer than its greatest length. XADD gives the new one an id of
-- its own; XREAD after the id "0" yields the first ones, and with the block 0 it waits while there is none.
pub record IsStream {R : Type 0} (o : StreamOps R) (messages : String → R → List Message)
    : Type 0 where
  pub new_id : String → R → String
  pub x_add-works :
      (key : String) (most : ℕ) (fs : List (String × String)) (r : R)
      → (o.x_add key most fs r).0 ≡ none
  pub x_add-appends :
      (key : String) (most : ℕ) (fs : List (String × String)) (r : R)
      → length (messages key r) < most
      → messages key (o.x_add key most fs r).1
        ≡ messages key r ++ (record { id = new_id key r; values = fs } ∷ [])
  pub x_read-start :
      (key : String) (count : ℕ) (r : R) (m : Message) (ms : List Message)
      → messages key r ≡ m ∷ ms
      → length (m ∷ ms) ≤ count
      → (o.x_read key "0" count (pos 0) r).0 ≡ arrived ((m ∷ ms) ∷ [])
  pub x_read-empty :
      (key : String) (count : ℕ) (r : R)
      → messages key r ≡ []
      → (o.x_read key "0" count (pos 0) r).0 ≡ waits
