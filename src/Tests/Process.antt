-- ===== src/Tests/Process.antt =====
-- A service of two modules: its run, and the report of a failure.
use blockstorageingestor.Prelude.{
  ℕ, ◌+◌, ◌≡◌, refl, ◌↔◌, Bool, true, false, Option, none, some, List, [], ◌∷◌, ◌++◌, arith,
  nat_beq, if◌then◌else◌, nat_eq, Str, codes, str_eq,
}
use blockstorageingestor.Errors.{Error, ok, foreign}
use blockstorageingestor.Ingester.Run.{Services, Ingester, Line, run, service_failed, ready_handler}
use blockstorageingestor.Ingester.Run.Laws.{IsClean, run-IsClean}
use blockstorageingestor.Ingester.Run.Reports.{IsName, named, service_failed_lem}

-- The world is the log. Service 1 fails to stop the process, service 2 fails otherwise.
abbrev process : Services
process = record {
  World = List Line;
  Service = ℕ;
  same_service = nat_beq;
  ModuleManager = List (Str × ℕ);
  is_user_visible_module = λ mm m. true;
  init_module_services = λ mm ts w. (ok mm, w);
  Manager = List ℕ;
  new_manager = λ ss w. (ok ss, w);
  start_async = λ sm w. (ok tt, w);
  await_stopped = λ sm w. (ok tt, w);
  stop_async = λ sm w. w;
  add_listener = λ sm l w. w;
  is_healthy = λ sm w. false;
  services_by_state = λ sm w. (codes "Failed", sm) ∷ [];
  failed_services = λ sm w. sm;
  failure_case = λ s w. if nat_beq s 0 then none else some (foreign s);
  is_stop_process = stops;
  Collector = Unit {0};
  new_process_collector = λ w. (ok tt, w);
  must_register = λ c w. some w;
  log = λ l w. w ++ l ∷ [];
  handle_path = λ p h w. w;
  register_health_server = λ sm w. w;
  on_signal = λ f w. w;
  decimal = λ n. (b'0' + n) ∷ [];
}
  where
    stops : Option Error → Bool
    stops (some (foreign c)) = nat_beq c 1
    stops _ = false

abbrev modules : List (Str × ℕ)
modules = (codes "server", 1) ∷ (codes "compactor", 2) ∷ []

abbrev ingester : Ingester process
ingester = record { target = codes "all" ∷ []; module_manager = modules }

run-IsClean_example :
    ((v : List Line) × (run process ingester [] ≡ some (ok tt, v))) ↔ IsClean process ingester []
run-IsClean_example = run-IsClean process ingester []

compactor-IsName : IsName process modules 2 (codes "compactor")
compactor-IsName =
    (((codes "server", 1) ∷ [], 2, [], refl, refl), ((λ h. ground arith), ((λ h. refl), tt)))

service_failed_lem_example :
    service_failed process (1 ∷ 2 ∷ []) modules 2 []
    ≡ named process (codes "compactor") (some (foreign 2)) ∷ []
service_failed_lem_example =
    service_failed_lem process (1 ∷ 2 ∷ []) modules 2 [] (some (codes "compactor")) compactor-IsName

ready_test :
    (ready_handler process (1 ∷ 2 ∷ []) []).body
    ≡ codes "Some services are not Running:\nFailed: 2\n\n"
unfolding ready_handler
ready_test = refl
