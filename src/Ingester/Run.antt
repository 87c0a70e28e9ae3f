-- ===== src/Ingester/Run.antt =====
-- pkg/blockstorageingester/blockstorageingester.go: the service, from its start to its stop, and
-- its handler of readiness.
pub mod Laws
pub mod Reports
use blockstorageingestor.Prelude.{
  ℤ, pos, negsuc, at_most, above, ℕ, zero, suc, ◌+◌, ◌-◌, ◌*◌, ◌/◌, ◌%◌, ◌^◌, ◌≤◌, ◌<◌, ◌≡◌, refl,
  sym, ap, ◌∙◌, ◌≢◌, ◌↔◌, ◌⊎◌, inl, inr, Bool, true, false, not, ◌&&◌, ◌||◌, Option, none, some,
  List, [], ◌∷◌, ◌++◌, map, append-nil, append_assoc, arith, ltb, leb, nat_beq, nat_beq_iff,
  if◌then◌else◌, Comparable, ◌==◌, nat_eq, Bool-cases, Option-cases, length, get_elem?, take, drop,
  length-append, contains, All, All-append, Lacks, select, get_elem?-append, Str, codes, str_beq,
  str_beq_iff, str_eq, str_beq_refl, str_beq-append,
}
use blockstorageingestor.Errors.{Error, Result, ok, err, errorf}
use blockstorageingestor.Exec.{Exec}

pub data Level : Type 0 where
  info warn error : Level

-- A value of a log line.
pub data Datum : Type 0 where
  text : Str → Datum
  failure : Option Error → Datum

-- A log line: its message and its further keys with their values.
pub record Line : Type 0 where
  pub level : Level
  pub msg : Str
  pub fields : List (Str × Datum)

-- What `readyHandler` writes: the status and the body.
pub record Response : Type 0 where
  pub status : ℕ
  pub body : Str

-- The functions of a `services.NewManagerListener`.
pub record Listener (World : Type 0) (Service : Type 0) : Type 0 where
  pub healthy : World → World
  pub stopped : World → World
  pub failed : Service → World → World

-- The packages `modules`, `services`, `signals` and `process`, the server's router and the logger.
-- A call that blocks, such as `await_stopped`, returns the world as it is at its end.
pub record Services : Type 1 where
  pub World : Type 0
  pub Service : Type 0
  pub same_service : Service → Service → Bool
  pub ModuleManager : Type 0
  pub is_user_visible_module : ModuleManager → Str → Bool
  -- the map of services, in the order in which Go happens to walk it
  pub init_module_services : ModuleManager → List Str → Exec World (List (Str × Service))
  pub Manager : Type 0
  pub new_manager : List Service → Exec World Manager
  pub start_async : Manager → Exec World (Unit {0})
  pub await_stopped : Manager → Exec World (Unit {0})
  pub stop_async : Manager → World → World
  pub add_listener : Manager → Listener World Service → World → World
  pub is_healthy : Manager → World → Bool
  -- `ServicesByState`, the state with its text; `failed_services` are those under `Failed`
  pub services_by_state : Manager → World → List (Str × List Service)
  pub failed_services : Manager → World → List Service
  pub failure_case : Service → World → Option Error
  -- the comparison with `modules.ErrStopProcess`
  pub is_stop_process : Option Error → Bool
  pub Collector : Type 0
  pub new_process_collector : Exec World Collector
  -- `prometheus.MustRegister`, with `none` for its panic
  pub must_register : Collector → World → Option World
  pub log : Line → World → World
  pub handle_path : Str → (World → Response) → World → World
  pub register_health_server : Manager → World → World
  -- a goroutine that waits for a signal, and then acts
  pub on_signal : (World → World) → World → World
  -- `%d`
  pub decimal : ℕ → Str

module _ (S : Services) where
  pub record Ingester : Type 0 where
    pub target : List Str
    pub module_manager : S.ModuleManager

  unfoldable pub warn_internal : S.ModuleManager → List Str → S.World → S.World
  warn_internal mm [] w = w
  warn_internal mm (m ∷ ms) w = warn_internal mm ms (
      if not (S.is_user_visible_module mm m)
      then S.log
          (record {
            level = warn;
            msg = codes "selected target is an internal module, is this intended?";
            fields = (codes "target", text m) ∷ [];
          })
          w
      else w)

  -- `none` where the process panics
  unfoldable pub register_collector : S.World → Option S.World
  register_collector w =
      let (r, w) = S.new_process_collector w in
      elim r [
        | ok c ↦ S.must_register c w
        | err e ↦ some (
            S.log
              (record {
                level = warn;
                msg = codes "skipped registration of custom process metrics collector";
                fields = (codes "err", failure (some e)) ∷ [];
              })
              w)
      ]

  abbrev pub module_failed : Level → Str → Str → Option Error → Line
  module_failed l msg m e = record {
    level = l;
    msg = msg;
    fields = (codes "module", text m) ∷ (codes "err", failure e) ∷ [];
  }

  -- The line that `serviceFailed` writes about a service with the failure `e`: the loop over the
  -- map of services.
  unfoldable pub report : List (Str × S.Service) → S.Service → Option Error → Line
  report [] s e = module_failed error (codes "module failed") (codes "unknown") e
  report ((m, x) ∷ services) s e =
      let rest = report services s e in
      if S.same_service x s
      then (if S.is_stop_process e
          then module_failed info (codes "received stop signal via return error") m e
          else module_failed error (codes "module failed") m e)
      else rest

  unfoldable pub service_failed : S.Manager → List (Str × S.Service) → S.Service → S.World → S.World
  unfolding report
  service_failed sm services s w =
      let w = S.stop_async sm w in S.log (report services s (S.failure_case s w)) w

  abbrev pub noted : Str → S.World → S.World
  noted msg = S.log (record { level = info; msg = msg; fields = [] })

  abbrev pub listener : S.Manager → List (Str × S.Service) → Listener S.World S.Service
  listener sm services = record {
    healthy = noted (codes "Cortex started");
    stopped = noted (codes "Cortex stopped");
    failed = service_failed sm services;
  }

  -- the lines of `readyHandler` about the services that are in each state
  unfoldable pub state_lines : List (Str × List S.Service) → Str
  state_lines [] = []
  state_lines ((st, ls) ∷ by_state) =
      st ++ codes ": " ++ S.decimal (length ls) ++ codes "\n" ++ state_lines by_state

  -- `http.Error` ends the message with a line break.
  unfoldable pub ready_handler : S.Manager → S.World → Response
  unfolding state_lines
  ready_handler sm w =
      if not (S.is_healthy sm w)
      then record {
        status = 503;
        body =
            codes "Some services are not Running:\n"
            ++ state_lines (S.services_by_state sm w)
            ++ codes "\n";
      }
      else record { status = 200; body = codes "ready" }

  -- the loop over the failed services at the end of `Run`
  unfoldable pub failure_of : List S.Service → S.World → Result (Unit {0})
  failure_of [] w = ok tt
  failure_of (f ∷ failed) w =
      let rest = failure_of failed w in
      if not (S.is_stop_process (S.failure_case f w))
      then err (errorf (codes "failed services"))
      else rest

  -- what `Run` does before the services are made
  unfoldable pub prepared : Ingester → S.World → Option S.World
  unfolding warn_internal register_collector
  prepared t w = elim (register_collector w) [
    | none ↦ none
    | some v ↦ some (warn_internal t.module_manager t.target v)
  ]

  -- what `Run` hands to the server and the manager before it starts the services
  unfoldable pub registered : S.Manager → List (Str × S.Service) → S.World → S.World
  unfolding service_failed ready_handler
  registered sm services w =
      let w = S.handle_path (codes "/ready") (ready_handler sm) w in
      let w = S.register_health_server sm w in
      let w = S.add_listener sm (listener sm services) w in S.on_signal (S.stop_async sm) w

  -- `sm.AwaitStopped`, unless the start has failed
  abbrev pub await : S.Manager → Result (Unit {0}) → Exec S.World (Unit {0})
  await sm (ok u) w = S.await_stopped sm w
  await sm (err e) w = (err e, w)

  abbrev pub outcome : S.Manager → Result (Unit {0}) → Exec S.World (Unit {0})
  outcome sm (ok u) w = (failure_of (S.failed_services sm w) w, w)
  outcome sm (err e) w = (err e, w)

  -- from the start of the manager to its stop
  unfoldable pub supervise : S.Manager → Exec S.World (Unit {0})
  unfolding failure_of
  supervise sm w = let (r, w) = S.start_async sm w in let (q, w) = await sm r w in outcome sm q w

  abbrev pub manage : List (Str × S.Service) → Result S.Manager → Exec S.World (Unit {0})
  manage services (ok sm) w = supervise sm (registered sm services w)
  manage services (err e) w = (err e, w)

  abbrev pub launch : Result (List (Str × S.Service)) → Exec S.World (Unit {0})
  launch (ok services) w =
      let (r, w) = S.new_manager (map (λ s. s.1) services) w in manage services r w
  launch (err e) w = (err e, w)

  -- `Run` from where the services are made
  unfoldable pub run_services : Ingester → Exec S.World (Unit {0})
  unfolding registered supervise
  run_services t w = let (r, w) = S.init_module_services t.module_manager t.target w in launch r w

  -- the outcome and the world at the end, or `none` where the process panics
  unfoldable pub run : Ingester → S.World → Option (Result (Unit {0}) × S.World)
  unfolding prepared run_services
  run t w = elim (prepared t w) [ none ↦ none | some v ↦ some (run_services t v) ]
