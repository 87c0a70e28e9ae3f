-- ===== src/Ingester/Run/Reports.antt =====
-- What is reported of a service that fails.
use blockstorageingestor.Prelude.{
  ◌≡◌, refl, ap, inl, inr, true, false, Option, none, some, List, [], ◌∷◌, ◌++◌, if◌then◌else◌,
  nat_eq, Bool-cases, All, Str, codes, str_eq,
}
use blockstorageingestor.Errors.{Error}
use blockstorageingestor.Ingester.Run.{
  Services, info, error, Line, report, service_failed, module_failed,
}

module _ (S : Services) where
  abbrev pub Pairs : Type 0
  Pairs = List (Str × S.Service)

  -- `m` is the only name of the service in the map, or none of its names is.
  abbrev pub IsName : Pairs → S.Service → Str → Type 0
  IsName services s m =
      ((xs : Pairs) × (x : S.Service) × (ys : Pairs) × (S.same_service x s ≡ true)
        × (services ≡ xs ++ (m, x) ∷ ys))
      × All (λ b. S.same_service b.1 s ≡ true → b.0 ≡ m) services

  abbrev pub IsMissing : Pairs → S.Service → Type 0
  IsMissing services s = All (λ b. S.same_service b.1 s ≡ false) services

  -- the line about a service of a module
  abbrev pub named : Str → Option Error → Line
  named m e =
      if S.is_stop_process e
      then module_failed S info (codes "received stop signal via return error") m e
      else module_failed S error (codes "module failed") m e

  abbrev pub unnamed : Option Error → Line
  unnamed e = module_failed S error (codes "module failed") (codes "unknown") e

  report-IsMissing :
      (services : Pairs) (s : S.Service) (e : Option Error)
      → IsMissing services s
      → report S services s e ≡ unnamed e
  unfolding report
  report-IsMissing [] s e h = refl
  report-IsMissing ((m, x) ∷ services) s e h = rw (h.0, report) (report-IsMissing services s e h.1)

  report-named :
      (xs : Pairs) (m : Str) (x : S.Service) (ys : Pairs) (s : S.Service) (e : Option Error)
      → S.same_service x s ≡ true
      → All (λ b. S.same_service b.1 s ≡ true → b.0 ≡ m) (xs ++ (m, x) ∷ ys)
      → report S (xs ++ (m, x) ∷ ys) s e ≡ named m e
  unfolding report
  report-named [] m x ys s e h k = rw (h, report) refl
  report-named ((n, y) ∷ xs) m x ys s e h k = elim (Bool-cases (S.same_service y s)) [
    | inl a ↦ rw (a, k.0 a, report) refl
    | inr a ↦ rw (a, report) (report-named xs m x ys s e h k.1)
  ]

  abbrev pub IsNamed : Pairs → S.Service → Option Str → Type 0
  IsNamed services s none = IsMissing services s
  IsNamed services s (some m) = IsName services s m

  abbrev pub line_of : Option Str → Option Error → Line
  line_of none e = unnamed e
  line_of (some m) e = named m e

  report-IsNamed :
      (services : Pairs) (s : S.Service) (e : Option Error) (m : Option Str)
      → IsNamed services s m
      → report S services s e ≡ line_of m e
  report-IsNamed services s e none h = report-IsMissing services s e h
  report-IsNamed services s e (some m) h =
      let (xs, x, ys, a, k) = h.0 in rw k (report-named xs m x ys s e a (rw (← k) h.1))

  -- When a service fails, the manager is stopped, and then one line is logged: about the module
  -- whose name the service has in the map, in whatever order the map is walked, as information if
  -- the service failed to stop the process and else as an error; or about an unknown module, if the
  -- map does not have the service.
  pub service_failed_lem :
      (sm : S.Manager) (services : Pairs) (s : S.Service) (w : S.World) (m : Option Str)
      → IsNamed services s m
      → let v = S.stop_async sm w in
        service_failed S sm services s w ≡ S.log (line_of m (S.failure_case s v)) v
  unfolding service_failed
  service_failed_lem sm services s w m h =
      let v = S.stop_async sm w in
      ap (λ l. S.log l v) (report-IsNamed services s (S.failure_case s v) m h)
