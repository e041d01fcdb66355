-- ===== src/Examples/Memory/Laws.antt =====
-- That the Redis in memory behaves as documented.
use mini_bk.Prelude.{
  ◌≡◌, ◌≢◌, refl, sym, ap, subst, ◌∙◌, arith, String, List, [], ◌∷◌, ◌++◌, Option, none, some, not,
  ◌&&◌, str_eq, eq_iff, inl, inr, ◌⊎◌, Memᴰ, Bool-cases,
}
use mini_bk.Prelude.Int.{ℤ, ltb_ℤ}
use mini_bk.Model.Errors.{Failure, ok, err}
use mini_bk.Queue.Redis.Laws.{IsRedis, IsLasting, Executed}
use mini_bk.Examples.Memory.{
  Memory, upd, upd_self, upd_other, names, insert_by, without, in_range, cut_last, cut_last_lem,
  popped_last, popped_min, memory, views,
}

keep_head :
    (n u : String) (xs ys : List String)
    → (Memᴰ u xs → Memᴰ u ys)
    → Memᴰ u (n ∷ xs)
    → Memᴰ u (n ∷ ys)
keep_head n u xs ys f (Memᴰ.head e) = Memᴰ.head e
keep_head n u xs ys f (Memᴰ.tail k) = Memᴰ.tail (f k)

without-keeps :
    (m u : String) (z : List (String × ℤ)) → u ≢ m → Memᴰ u (names z) → Memᴰ u (names (without m z))
without-keeps m u [] h k = k
without-keeps m u ((n, s) ∷ z) h (Memᴰ.head e) = elim (Bool-cases (str_eq n m)) [
  | inl f ↦ absurd (h (e ∙ (eq_iff n m).0 f))
  | inr f ↦ rw f (Memᴰ.head e)
]
without-keeps m u ((n, s) ∷ z) h (Memᴰ.tail k) = elim (Bool-cases (str_eq n m)) [
  | inl f ↦ rw f (without-keeps m u z h k)
  | inr f ↦ rw f (Memᴰ.tail (without-keeps m u z h k))
]

without-only :
    (m u : String) (z : List (String × ℤ)) → Memᴰ u (names (without m z)) → Memᴰ u (names z)
without-only m u [] k = k
without-only m u ((n, s) ∷ z) k = elim (Bool-cases (str_eq n m)) [
  | inl f ↦ Memᴰ.tail (without-only m u z (rw f at k))
  | inr f ↦ keep_head n u _ _ (without-only m u z) (rw f at k)
]

in_range-only :
    (low high : ℤ) (u : String) (z : List (String × ℤ))
    → Memᴰ u (in_range low high z)
    → Memᴰ u (names z)
in_range-only low high u [] k = k
in_range-only low high u ((n, s) ∷ z) k =
    elim (Bool-cases (not (ltb_ℤ s low) && not (ltb_ℤ high s))) [
      | inr f ↦ Memᴰ.tail (in_range-only low high u z (rw f at k))
      | inl f ↦ keep_head n u _ _ (in_range-only low high u z) (rw f at k)
    ]

-- ZADD, ZREM and ZPOPMIN of one set leave the others.
names_other :
    (k : String) (z : List (String × ℤ)) (f : String → List (String × ℤ)) (j : String)
    → j ≢ k
    → names (upd k z f j) ≡ names (f j)
names_other k z f j h = ap names (upd_other k z f j h)

min-takes :
    (k : String) (r : Memory) (ms : List String) (z : List (String × ℤ))
    → r.zsets k ≡ z
    → (popped_min k z r).0 ≡ ok ms
    → let after = names ((popped_min k z r).1.zsets k) in
      ((ms ≡ []) × (names z ≡ []) × (after ≡ []))
      ⊎ ((m : String) × (ms ≡ m ∷ []) × (names z ≡ m ∷ after))
min-takes k r ms [] e h = inl (ground (arith, h), refl, ap names e)
min-takes k r ms ((m, s) ∷ z) e h =
    inr (m, ground (arith, h), ap (λ l. m ∷ names l) (sym (upd_self k z r.zsets)))

min-others :
    (k : String) (r : Memory) (z : List (String × ℤ)) (j : String)
    → j ≢ k
    → names ((popped_min k z r).1.zsets j) ≡ names (r.zsets j)
min-others k r [] j h = refl
min-others k r ((m, s) ∷ z) j h = names_other k z r.zsets j h

min-ok :
    (k : String) (r : Memory) (z : List (String × ℤ)) (e : Failure) → (popped_min k z r).0 ≢ err e
min-ok k r [] e h = absurd (ground (arith, h))
min-ok k r ((m, s) ∷ z) e h = absurd (ground (arith, h))

min-rest :
    (k : String) (r : Memory) (z : List (String × ℤ)) (j : String)
    → ((popped_min k z r).1.lists j ≡ r.lists j) × ((popped_min k z r).1.values j ≡ r.values j)
min-rest k r [] j = (refl, refl)
min-rest k r ((m, s) ∷ z) j = (refl, refl)

last-takes :
    (k s : String) (r : Memory) (l : List String)
    → (popped_last k l r).0 ≡ ok (some s)
    → l ≡ (popped_last k l r).1.lists k ++ s ∷ []
last-takes k s r [] h = absurd (ground (arith, h))
last-takes k s r (x ∷ l) h =
    cut_last_lem x l
    ∙ ap (λ y. (cut_last x l).0 ++ y ∷ []) (ground (arith, h))
    ∙ ap (λ y. y ++ s ∷ []) (sym (upd_self k (cut_last x l).0 r.lists))

last-waits :
    (k : String) (r : Memory) (l : List String)
    → r.lists k ≡ l
    → (popped_last k l r).0 ≡ ok none
    → (l ≡ []) × ((popped_last k l r).1.lists k ≡ [])
last-waits k r [] e h = (refl, e)
last-waits k r (x ∷ l) e h = absurd (ground (arith, h))

last-ok : (k : String) (r : Memory) (l : List String) (e : Failure) → (popped_last k l r).0 ≢ err e
last-ok k r [] e h = absurd (ground (arith, h))
last-ok k r (x ∷ l) e h = absurd (ground (arith, h))

last-rest :
    (k : String) (r : Memory) (l : List String) (j : String)
    → ((popped_last k l r).1.zsets j ≡ r.zsets j) × ((popped_last k l r).1.values j ≡ r.values j)
last-rest k r [] j = (refl, refl)
last-rest k r (x ∷ l) j = (refl, refl)

set_ex-only :
    (k s : String) (f : String → Option String) (j : String)
    → ((upd k (some s) f j ≡ none) ⊎ (upd k (some s) f j ≡ f j))
      ⊎ ((j ≡ k) × (upd k (some s) f j ≡ some s))
set_ex-only k s f j = elim (Bool-cases (str_eq j k)) [
  | inl e ↦ inr ((eq_iff j k).0 e, rw e refl)
  | inr e ↦ inl (inr (rw e refl))
]

first-add :
    (m : String) (f : ℤ) (z : List (String × ℤ))
    → names z ≡ []
    → names (insert_by m f (without m z)) ≡ m ∷ []
first-add m f [] h = refl
first-add m f ((n, s) ∷ z) h = absurd (ground (arith, h))

pub memory-IsRedis : IsRedis memory views
unfolding Executed
memory-IsRedis = record {
  set_ex_writes = λ k s ttl r e. upd_self k (some s) r.values;
  set_ex_only = λ k s ttl r j. set_ex-only k s r.values j;
  set_ex_lists = λ k s ttl r j. refl;
  set_ex_zsets = λ k s ttl r j. refl;
  get_reads = λ k s r e. ground (arith, e);
  get_misses = λ k r e. ground (arith, e);
  get_lists = λ k r j. refl;
  get_zsets = λ k r j. refl;
  get_values = λ k r j. inr refl;
  l_push_adds = λ k s r. upd_self k (s ∷ r.lists k) r.lists;
  l_push_zsets = λ k s r j. refl;
  l_push_values = λ k s r j. inr refl;
  br_pop_takes = λ timeout k s r e. last-takes k s r (r.lists k) e;
  br_pop_waits = λ timeout k r e. last-waits k r (r.lists k) refl e;
  br_pop_fails = λ timeout k r x e. absurd (last-ok k r (r.lists k) x e);
  br_pop_zsets = λ timeout k r j. ap names (last-rest k r (r.lists k) j).0;
  br_pop_values = λ timeout k r j. inr (last-rest k r (r.lists k) j).1;
  z_add_first = λ k f m r e.
      ap names (upd_self k (insert_by m f (without m (r.zsets k))) r.zsets)
      ∙ first-add m f (r.zsets k) e;
  z_add_others = λ k f m r j h. names_other k _ r.zsets j h;
  z_add_lists = λ k f m r j. refl;
  z_add_values = λ k f m r j. inr refl;
  z_pop_min_takes = λ k r ms e. min-takes k r ms (r.zsets k) refl e;
  z_pop_min_fails = λ k r x e. absurd (min-ok k r (r.zsets k) x e);
  z_pop_min_lists = λ k r j. (min-rest k r (r.zsets k) j).0;
  z_pop_min_others = λ k r j h. min-others k r (r.zsets k) j h;
  z_pop_min_values = λ k r j. inr (min-rest k r (r.zsets k) j).1;
  z_rem_keeps = λ k m u r h n.
      subst (λ z. Memᴰ u (names z)) (sym (upd_self k (without m (r.zsets k)) r.zsets))
        (without-keeps m u (r.zsets k) h n);
  z_rem_only = λ k m u r n.
      without-only m u (r.zsets k)
        (subst (λ z. Memᴰ u (names z)) (upd_self k (without m (r.zsets k)) r.zsets) n);
  z_rem_others = λ k m r j h. names_other k _ r.zsets j h;
  z_rem_lists = λ k m r j. refl;
  z_range_by_score_members = λ k low high r ms u e n.
      in_range-only low high u (r.zsets k) (subst (Memᴰ u) (ground (arith, e)) n);
  z_range_by_score_lists = λ k low high r j. refl;
  z_range_by_score_zsets = λ k low high r j. refl;
}

pub memory-IsLasting : IsLasting memory views
memory-IsLasting = record {
  get_lasts = λ k r j. refl;
  l_push_lasts = λ k s r j. refl;
  br_pop_lasts = λ timeout k r j. (last-rest k r (r.lists k) j).1;
  z_add_lasts = λ k f m r j. refl;
  z_pop_min_lasts = λ k r j. (min-rest k r (r.zsets k) j).1;
}
