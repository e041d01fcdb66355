-- ===== src/Scheduler/Selection/Best.antt =====
-- SelectNode of internal/scheduler/scheduler.go against what it promises: a fitting candidate of
-- least CPU usage.
use mini_bk.Prelude.{
  List, [], ◌∷◌, Option, some, Bool, true, false, ◌≡◌, ◌≢◌, refl, sym, arith, ◌⊎◌, inl, inr,
  Bool-cases, keep, All, Memᴰ, subst,
}
use mini_bk.Model.Errors.{Result, ok, err, no_matching_labels, insufficient_resources}
use mini_bk.Model.Task.{Task}
use mini_bk.Model.Node.{Node}
use mini_bk.Nodes.Manager.{NodeManager, find_by_labels}
use mini_bk.Scheduler.State.{Floats}
use mini_bk.Scheduler.Selection.{
  node_fits, insert_by_usage, sort_by_usage, first_of_sorted, among, select_node,
}

-- `<` on the floats that occur, none of which is a NaN.
pub record IsOrder {F : Type 0} (fl : Floats F) : Type 0 where
  pub asymmetric : (a b : F) → fl.less a b ≡ true → fl.less b a ≡ false
  pub neg_transitive : (a b c : F) → fl.less a b ≡ false → fl.less b c ≡ false → fl.less a c ≡ false

head-or-tail :
    {A : Type 0} (P : A → Type 0) (x a : A) (ys zs : List A)
    → P x
    → (Memᴰ a ys → Memᴰ a zs × P a)
    → Memᴰ a (x ∷ ys)
    → Memᴰ a (x ∷ zs) × P a
head-or-tail P x a ys zs h rest (Memᴰ.head e) = (Memᴰ.head e, subst P (sym e) h)
head-or-tail P x a ys zs h rest (Memᴰ.tail n) = let (k, q) = rest n in (Memᴰ.tail k, q)

keep-mem :
    {A : Type 0} (p : A → Bool) (xs : List A) (a : A)
    → Memᴰ a (keep p xs)
    → Memᴰ a xs × (p a ≡ true)
unfolding keep
keep-mem p [] a m = elim m [ ]
keep-mem p (x ∷ xs) a m = elim (Bool-cases (p x)) [
  | inl e ↦
      head-or-tail (λ b. p b ≡ true) x a (keep p xs) xs e (keep-mem p xs a) (rw (e, keep) at m)
  | inr e ↦ let (n, h) = keep-mem p xs a (rw (e, keep) at m) in (Memᴰ.tail n, h)
]

module _ {F : Type 0} (fl : Floats F) (order : IsOrder fl) where
  -- No node of the list is below `n`.
  abbrev pub Least : Node F → List (Node F) → Type 0
  Least n ns = All (λ m. fl.less m.cpu_usage_pct n.cpu_usage_pct ≡ false) ns

  -- Every node of a sorted list is least from there on.
  abbrev IsSorted : List (Node F) → Type 0
  IsSorted [] = Unit
  IsSorted (n ∷ ns) = Least n ns × IsSorted ns

  irreflexive : (n : Node F) → fl.less n.cpu_usage_pct n.cpu_usage_pct ≡ false
  irreflexive n = elim (Bool-cases (fl.less n.cpu_usage_pct n.cpu_usage_pct)) [
    | inl e ↦ order.asymmetric n.cpu_usage_pct n.cpu_usage_pct e
    | inr e ↦ e
  ]

  Least-mono :
      (n m : Node F) (ns : List (Node F))
      → fl.less m.cpu_usage_pct n.cpu_usage_pct ≡ false
      → Least m ns
      → Least n ns
  Least-mono n m [] h l = tt
  Least-mono n m (k ∷ ns) h l = (
    order.neg_transitive k.cpu_usage_pct m.cpu_usage_pct n.cpu_usage_pct l.0 h,
    Least-mono n m ns h l.1,
  )

  insert_by_usage-Least :
      (k n : Node F) (ns : List (Node F))
      → fl.less n.cpu_usage_pct k.cpu_usage_pct ≡ false
      → Least k ns
      → Least k (insert_by_usage fl n ns)
  unfolding insert_by_usage
  insert_by_usage-Least k n [] h l = (h, tt)
  insert_by_usage-Least k n (m ∷ ms) h l =
      elim (Bool-cases (fl.less m.cpu_usage_pct n.cpu_usage_pct)) [
        | inl e ↦ rw (e, insert_by_usage) (l.0, insert_by_usage-Least k n ms h l.1)
        | inr e ↦ rw (e, insert_by_usage) (h, l)
      ]

  insert_by_usage-IsSorted :
      (n : Node F) (ns : List (Node F)) → IsSorted ns → IsSorted (insert_by_usage fl n ns)
  unfolding insert_by_usage
  insert_by_usage-IsSorted n [] v = (tt, tt)
  insert_by_usage-IsSorted n (m ∷ ms) v =
      elim (Bool-cases (fl.less m.cpu_usage_pct n.cpu_usage_pct)) [
        | inl e ↦
            rw (e, insert_by_usage)
              (
                insert_by_usage-Least m n ms (order.asymmetric m.cpu_usage_pct n.cpu_usage_pct e)
                    v.0,
                insert_by_usage-IsSorted n ms v.1,
              )
        | inr e ↦ rw (e, insert_by_usage) ((e, Least-mono n m ms e v.0), v)
      ]

  sort_by_usage-IsSorted : (ns : List (Node F)) → IsSorted (sort_by_usage fl ns)
  unfolding sort_by_usage
  sort_by_usage-IsSorted [] = tt
  sort_by_usage-IsSorted (n ∷ ns) =
      insert_by_usage-IsSorted n (sort_by_usage fl ns) (sort_by_usage-IsSorted ns)

  insert_by_usage-mem :
      (n a : Node F) (ns : List (Node F)) → Memᴰ a (insert_by_usage fl n ns) → Memᴰ a (n ∷ ns)
  unfolding insert_by_usage
  insert_by_usage-mem n a [] m = m
  insert_by_usage-mem n a (k ∷ ks) m = elim (Bool-cases (fl.less k.cpu_usage_pct n.cpu_usage_pct)) [
    | inl e ↦
        after_head n a k ks (insert_by_usage fl n ks) (insert_by_usage-mem n a ks)
          (rw (e, insert_by_usage) at m)
    | inr e ↦ rw (e, insert_by_usage) at m
  ]
    where
      after_head :
          (n a k : Node F) (ks ls : List (Node F))
          → (Memᴰ a ls → Memᴰ a (n ∷ ks))
          → Memᴰ a (k ∷ ls)
          → Memᴰ a (n ∷ k ∷ ks)
      after_head n a k ks ls f (Memᴰ.head e) = Memᴰ.tail (Memᴰ.head e)
      after_head n a k ks ls f (Memᴰ.tail m) = past (f m)
        where
          past : Memᴰ a (n ∷ ks) → Memᴰ a (n ∷ k ∷ ks)
          past (Memᴰ.head e) = Memᴰ.head e
          past (Memᴰ.tail m) = Memᴰ.tail (Memᴰ.tail m)

  sort_by_usage-mem : (a : Node F) (ns : List (Node F)) → Memᴰ a (sort_by_usage fl ns) → Memᴰ a ns
  unfolding sort_by_usage
  sort_by_usage-mem a [] m = m
  sort_by_usage-mem a (n ∷ ns) m =
      after_head n a ns (sort_by_usage fl ns) (sort_by_usage-mem a ns)
        (insert_by_usage-mem n a (sort_by_usage fl ns) m)
    where
      after_head :
          (n a : Node F) (ns ls : List (Node F))
          → (Memᴰ a ls → Memᴰ a ns)
          → Memᴰ a (n ∷ ls)
          → Memᴰ a (n ∷ ns)
      after_head n a ns ls f (Memᴰ.head e) = Memᴰ.head e
      after_head n a ns ls f (Memᴰ.tail m) = Memᴰ.tail (f m)

  insert_by_usage-All :
      (P : Node F → Type 0) (n : Node F) (ns : List (Node F))
      → All P (insert_by_usage fl n ns)
      → All P (n ∷ ns)
  unfolding insert_by_usage
  insert_by_usage-All P n [] h = h
  insert_by_usage-All P n (k ∷ ks) h = elim (Bool-cases (fl.less k.cpu_usage_pct n.cpu_usage_pct)) [
    | inl e ↦
        let h' : P k × All P (insert_by_usage fl n ks) = rw (e, insert_by_usage) at h in
        let r = insert_by_usage-All P n ks h'.1 in (r.0, (h'.0, r.1))
    | inr e ↦ rw (e, insert_by_usage) at h
  ]

  sort_by_usage-All :
      (P : Node F → Type 0) (ns : List (Node F)) → All P (sort_by_usage fl ns) → All P ns
  unfolding sort_by_usage
  sort_by_usage-All P [] h = tt
  sort_by_usage-All P (n ∷ ns) h =
      let r = insert_by_usage-All P n (sort_by_usage fl ns) h in (r.0, sort_by_usage-All P ns r.1)

  length-insert : (n : Node F) (ns : List (Node F)) → insert_by_usage fl n ns ≢ []
  unfolding insert_by_usage
  length-insert n [] h = absurd (ground arith)
  length-insert n (k ∷ ks) h = elim (Bool-cases (fl.less k.cpu_usage_pct n.cpu_usage_pct)) [
    | inl e ↦ absurd (ground arith)
    | inr e ↦ absurd (ground arith)
  ]

  sort_by_usage-empty : (ns : List (Node F)) → sort_by_usage fl ns ≡ [] → ns ≡ []
  unfolding sort_by_usage
  sort_by_usage-empty [] h = refl
  sort_by_usage-empty (n ∷ ns) h = absurd (length-insert n (sort_by_usage fl ns) h)

  -- What SelectNode may answer about the candidates.
  abbrev pub Choice : Task → List (Node F) → Result (Option (Node F)) → Type 0
  Choice t ns r =
      ((ns ≡ []) × (r ≡ err no_matching_labels))
      ⊎ (((ns ≢ []) × (keep (node_fits fl t) ns ≡ []) × (r ≡ err insufficient_resources))
          ⊎ ((n : Node F) × (r ≡ ok (some n))
              × Memᴰ n ns
              × (node_fits fl t n ≡ true)
              × Least n (keep (node_fits fl t) ns)))

  among-Choice : (t : Task) (ns : List (Node F)) → Choice t ns (among fl t ns)
  unfolding among first_of_sorted
  among-Choice t [] = inl (refl, refl)
  among-Choice t (n ∷ ns) = by_sorted (sort_by_usage fl fitting) refl
    where
      fitting : List (Node F)
      fitting = keep (node_fits fl t) (n ∷ ns)

      by_sorted :
          (xs : List (Node F))
          → sort_by_usage fl fitting ≡ xs
          → Choice t (n ∷ ns) (among fl t (n ∷ ns))
      by_sorted [] e =
          inr (inl (λ h. absurd (ground arith), sort_by_usage-empty fitting e, rw (e, among) refl))
      by_sorted (x ∷ xs) e =
          let there =
            keep-mem (node_fits fl t) (n ∷ ns) x
              (sort_by_usage-mem x fitting (rw e (Memᴰ.head refl))) in
          let led : IsSorted (x ∷ xs) = rw e at (sort_by_usage-IsSorted fitting) in
          inr (
            inr (
              x,
              rw (e, among) refl,
              there.0,
              there.1,
              sort_by_usage-All (λ m. fl.less m.cpu_usage_pct x.cpu_usage_pct ≡ false) fitting
                  (rw e (irreflexive x, led.0)),
            ))

  -- Of the nodes whose labels match, SelectNode takes one on which the task fits, and no other such
  -- node has a lower CPU usage; it reports no matching labels only if no node matches, and
  -- insufficient resources only if nodes match and the task fits on none of them. The usages are
  -- ordered, none is a NaN.
  pub select_node-cases :
      (t : Task) (m : NodeManager F)
      → let ns = find_by_labels t.node_selector m in
        let r = select_node fl t (some m) in
        ((ns ≡ []) × (r ≡ err no_matching_labels))
        ⊎ (((ns ≢ []) × (keep (node_fits fl t) ns ≡ []) × (r ≡ err insufficient_resources))
            ⊎ ((n : Node F) × (r ≡ ok (some n))
                × Memᴰ n ns
                × (node_fits fl t n ≡ true)
                × All
                    (λ u. fl.less u.cpu_usage_pct n.cpu_usage_pct ≡ false)
                    (keep (node_fits fl t) ns)))
  unfolding select_node
  select_node-cases t m = among-Choice t (find_by_labels t.node_selector m)
