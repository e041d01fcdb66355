-- ===== src/Examples/Memory.antt =====
-- A Redis in memory in which no command fails and no key runs out, for runs of
-- internal/queue/redis.go.
pub mod Laws
use mini_bk.Prelude.{
  ◌≡◌, ◌≢◌, refl, sym, ap, subst, ◌∙◌, arith, String, List, [], ◌∷◌, ◌++◌, Option, none, some, not,
  ◌&&◌, if◌then◌else◌, str_eq, eq_iff, eq_refl, length, inl, inr, ◌⊎◌, Memᴰ, Bool-cases,
}
use mini_bk.Prelude.Int.{ℤ, ltb_ℤ}
use mini_bk.Model.Errors.{Failure, Result, ok, err}
use mini_bk.Queue.Redis.{RedisOps}
use mini_bk.Queue.Redis.Laws.{Views, IsRedis, IsLasting, Executed}

pub record Memory : Type 0 where
  pub lists : String → List String
  pub zsets : String → List (String × ℤ)
  pub values : String → Option String

abbrev pub upd : {A : Type 0} → String → A → (String → A) → String → A
upd k x f j = if str_eq j k then x else f j

upd_self : {A : Type 0} (k : String) (x : A) (f : String → A) → upd k x f k ≡ x
upd_self k x f = rw (eq_refl k) refl

upd_other :
    {A : Type 0} (k : String) (x : A) (f : String → A) (j : String) → j ≢ k → upd k x f j ≡ f j
upd_other k x f j h = elim (Bool-cases (str_eq j k)) [
  | inl e ↦ absurd (h ((eq_iff j k).0 e))
  | inr e ↦ rw e refl
]

abbrev names : List (String × ℤ) → List String
names [] = []
names ((m, s) ∷ z) = m ∷ names z

-- ZADD of a member that is not in the set.
abbrev insert_by : String → ℤ → List (String × ℤ) → List (String × ℤ)
insert_by m s [] = (m, s) ∷ []
insert_by m s ((n, u) ∷ z) =
    let later = insert_by m s z in if ltb_ℤ s u then (m, s) ∷ (n, u) ∷ z else (n, u) ∷ later

abbrev without : String → List (String × ℤ) → List (String × ℤ)
without m [] = []
without m ((n, s) ∷ z) = let rest = without m z in if str_eq n m then rest else (n, s) ∷ rest

abbrev in_range : ℤ → ℤ → List (String × ℤ) → List String
in_range low high [] = []
in_range low high ((n, s) ∷ z) =
    let rest = in_range low high z in
    if not (ltb_ℤ s low) && not (ltb_ℤ high s) then n ∷ rest else rest

abbrev cut_last : String → List String → List String × String
cut_last x [] = ([], x)
cut_last x (y ∷ l) = let (rest, last) = cut_last y l in (x ∷ rest, last)

cut_last_lem : (x : String) (l : List String) → x ∷ l ≡ (cut_last x l).0 ++ (cut_last x l).1 ∷ []
cut_last_lem x [] = refl
cut_last_lem x (y ∷ l) = ap (λ t. x ∷ t) (cut_last_lem y l)

abbrev popped_last : String → List String → Memory → Result (Option String) × Memory
popped_last k [] r = (ok none, r)
popped_last k (x ∷ l) r =
    (ok (some (cut_last x l).1), record r { lists = upd k (cut_last x l).0 r.lists })

abbrev popped_min : String → List (String × ℤ) → Memory → Result (List String) × Memory
popped_min k [] r = (ok [], r)
popped_min k ((m, s) ∷ z) r = (ok (m ∷ []), record r { zsets = upd k z r.zsets })

abbrev pub memory : RedisOps ℤ Memory
memory = record {
  set_ex = λ k s ttl r. (none, record r { values = upd k (some s) r.values });
  get = λ k r. (ok (r.values k), r);
  l_push = λ k s r. (none, record r { lists = upd k (s ∷ r.lists k) r.lists });
  br_pop = λ timeout k r. popped_last k (r.lists k) r;
  l_len = λ k r. (ok (length (r.lists k)), r);
  z_add =
      λ k f m r. (none, record r { zsets = upd k (insert_by m f (without m (r.zsets k))) r.zsets });
  z_pop_min = λ k r. popped_min k (r.zsets k) r;
  z_rem = λ k m r. (none, record r { zsets = upd k (without m (r.zsets k)) r.zsets });
  z_range_by_score = λ k low high r. (ok (in_range low high (r.zsets k)), r);
  z_card = λ k r. (ok (length (names (r.zsets k))), r);
  close = λ r. (none, r);
}

abbrev pub views : Views Memory
views = record {
  list_of = λ k r. r.lists k;
  zset_of = λ k r. names (r.zsets k);
  value_of = λ k r. r.values k;
}
