-- ===== src/Scheduler/Start/Settings.antt =====
-- What the settings in etcd can do to a scheduler, through the watcher of internal/config/watcher.go and
-- the callback in Start of internal/scheduler/scheduler.go.
use mini_bk.Prelude.{
  String, List, [], ◌∷◌, Option, none, some, ◌≡◌, refl, ap, ◌∙◌, arith, inl, inr, Bool-cases,
}
use mini_bk.Prelude.Int.{ℤ, pos, ◌<ℤ◌, ltb_ℤ, ltb_ℤ→lt}
use mini_bk.Prelude.Text.{has_suffix}
use mini_bk.Prelude.Decimal.{scan_int}
use mini_bk.Scheduler.Start.{
  Runner, ConfigEvent, config_put, config_deleted, on_config, load_config_keys, watch_config,
  watch_scheduler_config,
}

module _ {F Q E : Type 0} where
  abbrev pub tuned : ℤ → ℤ → Runner F Q E → Runner F Q E
  tuned limit interval r = record r {
    sched = record r.sched { max_concurrent = limit };
    tick_interval = interval;
  }

  -- Another limit, which is positive, and another interval.
  pub record IsTuned (r r' : Runner F Q E) : Type 0 where
    pub limit : ℤ
    pub interval : ℤ
    pub positive : pos 0 <ℤ limit
    pub same : r' ≡ tuned limit interval r

  IsTuned-refl : (r : Runner F Q E) → pos 0 <ℤ r.sched.max_concurrent → IsTuned r r
  IsTuned-refl r h = record {
    limit = r.sched.max_concurrent;
    interval = r.tick_interval;
    positive = h;
    same = refl;
  }

  IsTuned-trans : (r r1 r2 : Runner F Q E) → IsTuned r r1 → IsTuned r1 r2 → IsTuned r r2
  IsTuned-trans r r1 r2 a b = record {
    limit = b.limit;
    interval = b.interval;
    positive = b.positive;
    same = b.same ∙ ap (tuned b.limit b.interval) a.same;
  }

  IsTuned-limit : (r r' : Runner F Q E) → IsTuned r r' → pos 0 <ℤ r'.sched.max_concurrent
  IsTuned-limit r r' a = ground (arith, a.positive, ap (λ x. x.sched.max_concurrent) a.same)

  on_config-IsTuned :
      (key value : String) (r : Runner F Q E)
      → pos 0 <ℤ r.sched.max_concurrent
      → IsTuned r (on_config key value r)
  unfolding on_config
  on_config-IsTuned key value r h = elim (Bool-cases (ltb_ℤ (pos 0) (scan_int value))) [
    | inl p ↦ elim (Bool-cases (has_suffix key "/max_concurrent_tasks")) [
      | inl e ↦
          rw (e, on_config, p)
            (record {
              limit = scan_int value;
              interval = r.tick_interval;
              positive = ltb_ℤ→lt (pos 0) (scan_int value) p;
              same = refl;
            })
      | inr e ↦ elim (Bool-cases (has_suffix key "/tick_interval_ms")) [
        | inl f ↦
            rw (e, on_config, f, p)
              (record { limit = r.sched.max_concurrent; interval = _; positive = h; same = refl })
        | inr f ↦ rw (e, on_config, f) (IsTuned-refl r h)
      ]
    ]
    | inr p ↦ elim (Bool-cases (has_suffix key "/max_concurrent_tasks")) [
      | inl e ↦ rw (e, on_config, p) (IsTuned-refl r h)
      | inr e ↦ elim (Bool-cases (has_suffix key "/tick_interval_ms")) [
        | inl f ↦ rw (e, on_config, f, p) (IsTuned-refl r h)
        | inr f ↦ rw (e, on_config, f) (IsTuned-refl r h)
      ]
    ]
  ]

  load_config_keys-IsTuned :
      (kvs : List (String × String)) (r : Runner F Q E)
      → pos 0 <ℤ r.sched.max_concurrent
      → IsTuned r (load_config_keys kvs r)
  unfolding load_config_keys
  load_config_keys-IsTuned [] r h = IsTuned-refl r h
  load_config_keys-IsTuned ((key, value) ∷ kvs) r h =
      let one = on_config-IsTuned key value r h in
      IsTuned-trans r _ _ one (load_config_keys-IsTuned kvs _ (IsTuned-limit r _ one))

  watch_config-IsTuned :
      (events : List ConfigEvent) (r : Runner F Q E)
      → pos 0 <ℤ r.sched.max_concurrent
      → IsTuned r (watch_config events r)
  unfolding watch_config
  watch_config-IsTuned [] r h = IsTuned-refl r h
  watch_config-IsTuned (config_put key value ∷ events) r h =
      let one = on_config-IsTuned key value r h in
      IsTuned-trans r _ _ one (watch_config-IsTuned events _ (IsTuned-limit r _ one))
  watch_config-IsTuned (config_deleted key ∷ events) r h = watch_config-IsTuned events r h

  -- Whatever stands in etcd and whatever is put there or deleted: a scheduler whose concurrency limit
  -- is positive keeps a positive one, and apart from the limit and the tick interval nothing in it
  -- changes.
  pub watch_scheduler_config-IsTuned :
      (first : Option (List (String × String))) (events : List ConfigEvent) (r : Runner F Q E)
      → pos 0 <ℤ r.sched.max_concurrent
      → IsTuned r (watch_scheduler_config first events r)
  unfolding watch_scheduler_config
  watch_scheduler_config-IsTuned none events r h = watch_config-IsTuned events r h
  watch_scheduler_config-IsTuned (some kvs) events r h =
      let loaded = load_config_keys-IsTuned kvs r h in
      IsTuned-trans r _ _ loaded (watch_config-IsTuned events _ (IsTuned-limit r _ loaded))
