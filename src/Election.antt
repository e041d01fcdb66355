-- ===== src/Election.antt =====
-- internal/election/election.go. etcd is not in the repository: what its session and its election reply is an
-- argument. Campaign has two parts, since it holds the leadership while it waits for the session to
-- end: other goroutines read the state in between.
use mini_bk.Prelude.{String, Option, none, some, Bool, true, false}
use mini_bk.Model.Errors.{Failure, wrapped, session_expired, Result, ok, err}

pub record LeaderElection : Type 0 where
  pub prefix : String
  pub is_leader : Bool

unfoldable pub new_leader_election : String → Option Failure → Result LeaderElection
new_leader_election prefix (some e) = err (wrapped "create session" e)
new_leader_election prefix none = ok (record { prefix = prefix; is_leader = false })

-- Up to `le.election.Campaign`, which etcd answers: the error, or the leadership.
unfoldable pub campaign_begin : Option Failure → LeaderElection → Option Failure × LeaderElection
campaign_begin (some e) le = (some (wrapped "campaign" e), record le { is_leader = false })
campaign_begin none le = (none, record le { is_leader = true })

-- From the end of the session on.
unfoldable pub campaign_end : LeaderElection → Option Failure × LeaderElection
campaign_end le = (some session_expired, record le { is_leader = false })

-- The whole call: what it returns, once it returns.
unfoldable pub campaign : Option Failure → LeaderElection → Option Failure × LeaderElection
campaign reply le =
    let (e, le') = campaign_begin reply le in
    elim e [ some x ↦ (some x, le') | none ↦ campaign_end le' ]

unfoldable pub resign : Option Failure → LeaderElection → Option Failure × LeaderElection
resign (some e) le = (some (wrapped "resign" e), le)
resign none le = (none, record le { is_leader = false })

unfoldable pub close_session : Option Failure → LeaderElection → Option Failure × LeaderElection
close_session reply le = (reply, le)
