-- ===== src/Ingester/Run/Laws.antt =====
-- When `Run` returns no error.
use blockstorageingestor.Prelude.{
  ◌≡◌, refl, ap, ◌↔◌, inl, inr, true, some, List, [], ◌∷◌, map, arith, nat_eq, Bool-cases,
  Option-cases, All, Str, str_eq,
}
use mathlib.Core.Option.{some-injective}
use blockstorageingestor.Errors.{Result, ok, err}
use blockstorageingestor.Ingester.Run.{
  Services, Ingester, run, run_services, supervise, prepared, registered, failure_of, await,
  outcome, manage, launch,
}

module _ (S : Services) where
  -- A service that has not failed, or failed to stop the process.
  abbrev pub IsStopped : S.World → S.Service → Type 0
  IsStopped w f = S.is_stop_process (S.failure_case f w) ≡ true

  -- A run without an error: the world behind the registration of the collector, the services and the manager that were made, and the worlds behind the
  -- calls.
  pub record IsClean (t : Ingester S) (w : S.World) : Type 0 where
    pub before : S.World
    pub prepared_ok : prepared S t w ≡ some before
    pub services : List (Str × S.Service)
    pub made : S.World
    pub init_ok : S.init_module_services t.module_manager t.target before ≡ (ok services, made)
    pub manager : S.Manager
    pub managed : S.World
    pub manager_ok : S.new_manager (map (λ s. s.1) services) made ≡ (ok manager, managed)
    pub started : S.World
    pub start_ok : S.start_async manager (registered S manager services managed) ≡ (ok tt, started)
    pub ended : S.World
    pub await_ok : S.await_stopped manager started ≡ (ok tt, ended)
    pub failed_ok : All (IsStopped ended) (S.failed_services manager ended)

  failure_of-IsStopped :
      (fs : List S.Service) (w : S.World) → (failure_of S fs w ≡ ok tt) ↔ All (IsStopped w) fs
  unfolding failure_of
  failure_of-IsStopped [] w = (λ h. tt, λ h. refl)
  failure_of-IsStopped (f ∷ fs) w =
      let ih = failure_of-IsStopped fs w in
      elim (Bool-cases (S.is_stop_process (S.failure_case f w))) [
        | inl h ↦ (λ k. (h, ih.0 (ground (arith, h, k))), λ k. ground (arith, h, ih.1 k.1))
        | inr h ↦ (
          λ k. (let no : ⊥ = ground (arith, h, k) in elim no [ ]),
          λ k. (let no : ⊥ = cc (k.0, h) in elim no [ ]),
        )
      ]

  outcome-IsStopped :
      (sm : S.Manager) (q : Result (Unit {0})) (w : S.World)
      → (outcome S sm q w).0 ≡ ok tt
      → (q ≡ ok tt) × All (IsStopped w) (S.failed_services sm w)
  outcome-IsStopped sm (ok u) w h = (refl, (failure_of-IsStopped (S.failed_services sm w) w).0 h)
  outcome-IsStopped sm (err e) w h = let no : ⊥ = cc in elim no [ ]

  abbrev Supervised : S.Manager → S.World → Type 0
  Supervised sm w =
      ((S.await_stopped sm w).0 ≡ ok tt)
      × All (IsStopped (S.await_stopped sm w).1) (S.failed_services sm (S.await_stopped sm w).1)

  await-Supervised :
      (sm : S.Manager) (r : Result (Unit {0})) (w : S.World)
      → (let (q, v) = await S sm r w in outcome S sm q v).0 ≡ ok tt
      → (r ≡ ok tt) × Supervised sm w
  await-Supervised sm (ok u) w h = (refl, outcome-IsStopped sm _ _ h)
  await-Supervised sm (err e) w h = let no : ⊥ = cc in elim no [ ]

  supervise-Supervised :
      (sm : S.Manager) (w : S.World)
      → (supervise S sm w).0 ≡ ok tt
      → ((S.start_async sm w).0 ≡ ok tt) × Supervised sm (S.start_async sm w).1
  unfolding supervise
  supervise-Supervised sm w h = await-Supervised sm (S.start_async sm w).0 (S.start_async sm w).1 h

  manage-ok :
      (services : List (Str × S.Service)) (r : Result S.Manager) (w : S.World)
      → (manage S services r w).0 ≡ ok tt
      → (sm : S.Manager) × (r ≡ ok sm) × ((supervise S sm (registered S sm services w)).0 ≡ ok tt)
  manage-ok services (ok sm) w h = (sm, refl, h)
  manage-ok services (err e) w h = let no : ⊥ = cc in elim no [ ]

  launch-ok :
      (r : Result (List (Str × S.Service))) (w : S.World)
      → (launch S r w).0 ≡ ok tt
      → (services : List (Str × S.Service)) × (r ≡ ok services)
        × (let (m, v) = S.new_manager (map (λ s. s.1) services) w in
            (manage S services m v).0 ≡ ok tt)
  launch-ok (ok services) w h = (services, refl, h)
  launch-ok (err e) w h = let no : ⊥ = cc in elim no [ ]

  IsClean-run_services :
      (t : Ingester S) (w v : S.World)
      → prepared S t w ≡ some v
      → (run_services S t v).0 ≡ ok tt
      → IsClean t w
  unfolding run_services
  IsClean-run_services t w v e h =
      let p = S.init_module_services t.module_manager t.target v in
      let (services, a, h) = launch-ok p.0 p.1 h in
      let m = S.new_manager (map (λ s. s.1) services) p.1 in
      let (sm, b, h) = manage-ok services m.0 m.1 h in
      let (c, d) = supervise-Supervised sm (registered S sm services m.1) h in
      record {
        before = v;
        prepared_ok = e;
        services = services;
        made = p.1;
        init_ok = λ i. (a i, p.1);
        manager = sm;
        managed = m.1;
        manager_ok = λ i. (b i, m.1);
        started = (S.start_async sm (registered S sm services m.1)).1;
        start_ok = λ i. (c i, (S.start_async sm (registered S sm services m.1)).1);
        ended = (S.await_stopped sm (S.start_async sm (registered S sm services m.1)).1).1;
        await_ok = λ i.
            (d.0 i, (S.await_stopped sm (S.start_async sm (registered S sm services m.1)).1).1);
        failed_ok = d.1;
      }

  IsClean-run : (t : Ingester S) (w v : S.World) → run S t w ≡ some (ok tt, v) → IsClean t w
  unfolding run
  IsClean-run t w v h = elim (Option-cases (prepared S t w)) [
    | inl e ↦ let no : ⊥ = (let k = rw (run, e) at h in cc) in elim no [ ]
    | inr (x, e) ↦
        let k : some (run_services S t x) ≡ some (ok tt, v) = rw (run, e) at h in
        IsClean-run_services t w x e (ap (λ o. o.0) (some-injective _ _ k))
  ]

  -- `Run` returns nil exactly if the registration of the collector does not panic, the services and
  -- their manager can be made, the manager starts and stops without an error, and each service that
  -- has failed at the end did so to stop the process.
  pub run-IsClean :
      (t : Ingester S) (w : S.World) → ((v : S.World) × (run S t w ≡ some (ok tt, v))) ↔ IsClean t w
  unfolding run run_services
  run-IsClean t w = (
    λ (v, h). IsClean-run t w v h,
    λ c. (
      c.ended,
      rw
          (
            run,
            c.prepared_ok,
            run_services,
            c.init_ok,
            c.manager_ok,
            supervise,
            c.start_ok,
            c.await_ok,
            (failure_of-IsStopped (S.failed_services c.manager c.ended) c.ended).1 c.failed_ok,
          )
          refl,
    ),
  )
