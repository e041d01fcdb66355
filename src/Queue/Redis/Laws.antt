-- ===== src/Queue/Redis/Laws.antt =====
-- What internal/queue/redis.go relies on of Redis: the documented behaviour of the commands on three
-- views of a database. A command that fails may have been executed or not, and a key with a time to
-- live may run out at any command.
use mini_bk.Prelude.{String, List, [], ◌∷◌, ◌++◌, Option, none, some, ◌≡◌, ◌≢◌, ◌⊎◌, Memᴰ}
use mini_bk.Prelude.Int.{ℤ}
use mini_bk.Model.Errors.{Failure, ok, err}
use mini_bk.Queue.Redis.{RedisOps}

-- A list from its left end, the members of a sorted set from the lowest score, and a text; a key that
-- does not exist is an empty list or set.
pub record Views (R : Type 0) : Type 0 where
  pub list_of : String → R → List String
  pub zset_of : String → R → List String
  pub value_of : String → R → Option String

unfoldable pub Executed : {A : Type 0} → Option Failure → A → A → A → Type 0
Executed none new done before = new ≡ done
Executed (some _) new done before = (new ≡ done) ⊎ (new ≡ before)

module _ {R : Type 0} (v : Views R) where
  abbrev pub SameLists : R → R → Type 0
  SameLists r r' = (k : String) → v.list_of k r' ≡ v.list_of k r

  abbrev pub SameZsets : R → R → Type 0
  SameZsets r r' = (k : String) → v.zset_of k r' ≡ v.zset_of k r

  abbrev pub SameZsetsBut : String → R → R → Type 0
  SameZsetsBut k r r' = (j : String) → j ≢ k → v.zset_of j r' ≡ v.zset_of j r

  -- Texts may run out.
  abbrev pub Fades : R → R → Type 0
  Fades r r' = (k : String) → (v.value_of k r' ≡ none) ⊎ (v.value_of k r' ≡ v.value_of k r)

  abbrev pub SameValues : R → R → Type 0
  SameValues r r' = (k : String) → v.value_of k r' ≡ v.value_of k r

module _ {F R : Type 0} (o : RedisOps F R) (v : Views R) where
  pub record IsRedis : Type 0 where
    pub set_ex_writes :
        (k s : String) (ttl : ℤ) (r : R)
        → (o.set_ex k s ttl r).0 ≡ none
        → v.value_of k (o.set_ex k s ttl r).1 ≡ some s
    pub set_ex_only :
        (k s : String) (ttl : ℤ) (r : R) (j : String)
        → let after = v.value_of j (o.set_ex k s ttl r).1 in
          ((after ≡ none) ⊎ (after ≡ v.value_of j r)) ⊎ ((j ≡ k) × (after ≡ some s))
    pub set_ex_lists : (k s : String) (ttl : ℤ) (r : R) → SameLists v r (o.set_ex k s ttl r).1
    pub set_ex_zsets : (k s : String) (ttl : ℤ) (r : R) → SameZsets v r (o.set_ex k s ttl r).1
    pub get_reads : (k s : String) (r : R) → (o.get k r).0 ≡ ok (some s) → v.value_of k r ≡ some s
    pub get_misses :
        (k : String) (r : R) → (o.get k r).0 ≡ ok none → v.value_of k (o.get k r).1 ≡ none
    pub get_lists : (k : String) (r : R) → SameLists v r (o.get k r).1
    pub get_zsets : (k : String) (r : R) → SameZsets v r (o.get k r).1
    pub get_values : (k : String) (r : R) → Fades v r (o.get k r).1
    pub l_push_adds :
        (k s : String) (r : R)
        → Executed
            (o.l_push k s r).0
            (v.list_of k (o.l_push k s r).1)
            (s ∷ v.list_of k r)
            (v.list_of k r)
    pub l_push_zsets : (k s : String) (r : R) → SameZsets v r (o.l_push k s r).1
    pub l_push_values : (k s : String) (r : R) → Fades v r (o.l_push k s r).1
    pub br_pop_takes :
        (timeout : ℤ) (k s : String) (r : R)
        → (o.br_pop timeout k r).0 ≡ ok (some s)
        → v.list_of k r ≡ v.list_of k (o.br_pop timeout k r).1 ++ s ∷ []
    pub br_pop_waits :
        (timeout : ℤ) (k : String) (r : R)
        → (o.br_pop timeout k r).0 ≡ ok none
        → (v.list_of k r ≡ []) × (v.list_of k (o.br_pop timeout k r).1 ≡ [])
    pub br_pop_fails :
        (timeout : ℤ) (k : String) (r : R) (e : Failure)
        → (o.br_pop timeout k r).0 ≡ err e
        → let after = v.list_of k (o.br_pop timeout k r).1 in
          (v.list_of k r ≡ after) ⊎ ((s : String) × (v.list_of k r ≡ after ++ s ∷ []))
    pub br_pop_zsets : (timeout : ℤ) (k : String) (r : R) → SameZsets v r (o.br_pop timeout k r).1
    pub br_pop_values : (timeout : ℤ) (k : String) (r : R) → Fades v r (o.br_pop timeout k r).1
    pub z_add_first :
        (k : String) (f : F) (m : String) (r : R)
        → v.zset_of k r ≡ []
        → Executed (o.z_add k f m r).0 (v.zset_of k (o.z_add k f m r).1) (m ∷ []) []
    pub z_add_others :
        (k : String) (f : F) (m : String) (r : R) → SameZsetsBut v k r (o.z_add k f m r).1
    pub z_add_lists : (k : String) (f : F) (m : String) (r : R) → SameLists v r (o.z_add k f m r).1
    pub z_add_values : (k : String) (f : F) (m : String) (r : R) → Fades v r (o.z_add k f m r).1
    pub z_pop_min_takes :
        (k : String) (r : R) (ms : List String)
        → (o.z_pop_min k r).0 ≡ ok ms
        → let after = v.zset_of k (o.z_pop_min k r).1 in
          ((ms ≡ []) × (v.zset_of k r ≡ []) × (after ≡ []))
          ⊎ ((m : String) × (ms ≡ m ∷ []) × (v.zset_of k r ≡ m ∷ after))
    pub z_pop_min_fails :
        (k : String) (r : R) (e : Failure)
        → (o.z_pop_min k r).0 ≡ err e
        → let after = v.zset_of k (o.z_pop_min k r).1 in
          (v.zset_of k r ≡ after) ⊎ ((m : String) × (v.zset_of k r ≡ m ∷ after))
    pub z_pop_min_lists : (k : String) (r : R) → SameLists v r (o.z_pop_min k r).1
    pub z_pop_min_others : (k : String) (r : R) → SameZsetsBut v k r (o.z_pop_min k r).1
    pub z_pop_min_values : (k : String) (r : R) → Fades v r (o.z_pop_min k r).1
    pub z_rem_keeps :
        (k m u : String) (r : R)
        → u ≢ m
        → Memᴰ u (v.zset_of k r)
        → Memᴰ u (v.zset_of k (o.z_rem k m r).1)
    pub z_rem_only :
        (k m u : String) (r : R) → Memᴰ u (v.zset_of k (o.z_rem k m r).1) → Memᴰ u (v.zset_of k r)
    pub z_rem_others : (k m : String) (r : R) → SameZsetsBut v k r (o.z_rem k m r).1
    pub z_rem_lists : (k m : String) (r : R) → SameLists v r (o.z_rem k m r).1
    pub z_range_by_score_members :
        (k : String) (min max : ℤ) (r : R) (ms : List String) (u : String)
        → (o.z_range_by_score k min max r).0 ≡ ok ms
        → Memᴰ u ms
        → Memᴰ u (v.zset_of k r)
    pub z_range_by_score_lists :
        (k : String) (min max : ℤ) (r : R) → SameLists v r (o.z_range_by_score k min max r).1
    pub z_range_by_score_zsets :
        (k : String) (min max : ℤ) (r : R) → SameZsets v r (o.z_range_by_score k min max r).1

  -- No text runs out.
  pub record IsLasting : Type 0 where
    pub get_lasts : (k : String) (r : R) → SameValues v r (o.get k r).1
    pub l_push_lasts : (k s : String) (r : R) → SameValues v r (o.l_push k s r).1
    pub br_pop_lasts : (timeout : ℤ) (k : String) (r : R) → SameValues v r (o.br_pop timeout k r).1
    pub z_add_lasts : (k : String) (f : F) (m : String) (r : R) → SameValues v r (o.z_add k f m r).1
    pub z_pop_min_lasts : (k : String) (r : R) → SameValues v r (o.z_pop_min k r).1
