-- ===== src/Nodes/Sweep.antt =====
-- checkOfflineNodes of internal/nodemanager/manager.go: which nodes a round takes out of the cache.
use mini_bk.Prelude.{
  String, List, [], ◌∷◌, Option, none, some, true, false, ◌≡◌, refl, subst, ap, ◌∙◌, inl, inr,
  Bool-cases, if◌then◌else◌, str_eq, eq_iff,
}
use mini_bk.Prelude.Int.{ℤ}
use mini_bk.Prelude.Maps.{lookup, remove, lookup-remove}
use mini_bk.Model.Task.{Time}
use mini_bk.Model.Node.{Node, offline}
use mini_bk.Nodes.Table.{update_node}
use mini_bk.Nodes.Manager.{NodeManager, sweep, is_stale, check_offline_nodes}

module _ {F : Type 0} where
  -- No key is twice in the list, as in every Go map.
  abbrev pub DistinctKeys : List (String × Node F) → Type 0
  DistinctKeys [] = Unit
  DistinctKeys ((k, n) ∷ m) = (lookup k m ≡ none) × DistinctKeys m

  -- The entry after a round, from the entry before it.
  abbrev pub swept : Time → ℤ → Option (Node F) → Option (Node F) → Option (Node F)
  swept now after none kept = kept
  swept now after (some n) kept = if is_stale now after n then none else kept

  gone-twice :
      (i j : String) (rest : List (String × Node F))
      → lookup i rest ≡ none
      → str_eq i j ≡ true
      → lookup j rest ≡ none
  gone-twice i j rest h e = subst (λ k. lookup k rest ≡ none) ((eq_iff i j).0 e) h

  swept-remove :
      (now : Time) (after : ℤ) (i j : String) (n : Node F) (rest : List (String × Node F))
      (kept : Option (Node F))
      → lookup i rest ≡ none
      → is_stale now after n ≡ true
      → swept now after (lookup j rest) (if str_eq i j then none else kept)
        ≡ swept now after (if str_eq i j then some n else lookup j rest) kept
  swept-remove now after i j n rest kept h old = elim (Bool-cases (str_eq i j)) [
    | inl e ↦ rw (e, gone-twice i j rest h e, old) refl
    | inr e ↦ rw e refl
  ]

  swept-leave :
      (now : Time) (after : ℤ) (i j : String) (n : Node F) (rest : List (String × Node F))
      (kept : Option (Node F))
      → lookup i rest ≡ none
      → is_stale now after n ≡ false
      → swept now after (lookup j rest) kept
        ≡ swept now after (if str_eq i j then some n else lookup j rest) kept
  swept-leave now after i j n rest kept h fresh = elim (Bool-cases (str_eq i j)) [
    | inl e ↦ rw (e, gone-twice i j rest h e, fresh) refl
    | inr e ↦ rw e refl
  ]

  sweep-lookup :
      (now : Time) (es : List (String × Node F)) (m : NodeManager F) (j : String)
      → DistinctKeys es
      → lookup j (sweep now es m).online_nodes
        ≡ swept now m.offline_after (lookup j es) (lookup j m.online_nodes)
  unfolding sweep lookup
  sweep-lookup now [] m j d = refl
  sweep-lookup now ((i, n) ∷ rest) m j d = elim (Bool-cases (is_stale now m.offline_after n)) [
    | inl e ↦
        let m1 : NodeManager F = record m {
          db = (update_node now (record n { status = offline }) m.db).2;
          online_nodes = remove i m.online_nodes;
        } in
        rw (e, sweep)
          (sweep-lookup now rest m1 j d.1
            ∙ ap (swept now m.offline_after (lookup j rest)) (lookup-remove i j m.online_nodes)
            ∙ swept-remove now m.offline_after i j n rest (lookup j m.online_nodes) d.0 e)
    | inr e ↦
        rw (e, sweep)
          (sweep-lookup now rest m j d.1
            ∙ swept-leave now m.offline_after i j n rest (lookup j m.online_nodes) d.0 e)
  ]

  -- What a round leaves of an entry of the cache.
  abbrev pub survivor : Time → ℤ → Option (Node F) → Option (Node F)
  survivor now after none = none
  survivor now after (some n) = if is_stale now after n then none else some n

  swept-survivor :
      (now : Time) (after : ℤ) (o : Option (Node F)) → swept now after o o ≡ survivor now after o
  swept-survivor now after none = refl
  swept-survivor now after (some n) = refl

  -- After a round of checkOfflineNodes a node is in the cache exactly if it was there and its last
  -- heartbeat, where it has one, is not older than the limit; its entry is the one it had. No key is
  -- twice in the cache.
  pub check_offline_nodes-lookup :
      (now : Time) (m : NodeManager F) (j : String)
      → DistinctKeys m.online_nodes
      → lookup j (check_offline_nodes now m).online_nodes
        ≡ survivor now m.offline_after (lookup j m.online_nodes)
  unfolding check_offline_nodes
  check_offline_nodes-lookup now m j d =
      sweep-lookup now m.online_nodes m j d
      ∙ swept-survivor now m.offline_after (lookup j m.online_nodes)
