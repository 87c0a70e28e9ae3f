-- ===== src/Command/Start.antt =====
-- cmd/blockstoreingester/main.go: `LoadConfig` and `main`.
pub mod Laws
pub mod Modules
use blockstorageingestor.Prelude.{
  ℤ, pos, negsuc, at_most, above, ℕ, zero, suc, ◌+◌, ◌-◌, ◌*◌, ◌/◌, ◌%◌, ◌^◌, ◌≤◌, ◌<◌, ◌≡◌, refl,
  sym, ap, ◌∙◌, ◌≢◌, ◌↔◌, ◌⊎◌, inl, inr, Bool, true, false, not, ◌&&◌, ◌||◌, Option, none, some,
  List, [], ◌∷◌, ◌++◌, map, append-nil, append_assoc, arith, ltb, leb, nat_beq, nat_beq_iff,
  if◌then◌else◌, Comparable, ◌==◌, nat_eq, Bool-cases, Option-cases, length, get_elem?, take, drop,
  length-append, contains, All, All-append, Lacks, select, get_elem?-append, Str, codes, str_beq,
  str_beq_iff, str_eq, str_beq_refl, str_beq-append,
}
use blockstorageingestor.Errors.{Error, Result, ok, err, wrapped}
use blockstorageingestor.Go.Sort.{search_strings}
use blockstorageingestor.Command.Arguments.{Found, parse_config_file_parameter}
use blockstorageingestor.Command.Environment.{expand_env}

-- The variables that `main` has flags for.
pub record Options : Type 0 where
  pub event_sample_rate : ℤ
  pub ballast_bytes : ℤ
  pub mutex_profile_fraction : ℤ
  pub block_profile_rate : ℤ
  pub print_version : Bool
  pub print_modules : Bool

-- What `flag.CommandLine.Parse` returns: nil, `flag.ErrHelp`, or another error.
pub data Parsed : Type 0 where
  parsed help refused : Parsed

-- What the process does on the way, in its order.
pub data Event : Type 0 where
  config_hash : Str → Event
  loading_failed : Str → Error → Event
  usage flags_refused version config_dumped : Event
  config_invalid : Error → Event
  mutex_profile block_profile : ℤ → Event
  logger : Event
  event_sampling : ℤ → Event
  tracing : Str → Event
  tracing_failed : Error → Event
  listed : Str → Bool → Event
  ran : Event
  fatal : Str → Error → Event

pub data Ending : Type 0 where
  returned panicked : Ending
  exited : ℕ → Ending

-- The packages of Cortex and Go that `main` calls. `parse_flags` is `flag.CommandLine.Parse` over
-- the flags of the configuration and of `main`.
pub record Program : Type 1 where
  pub Config : Type 0
  pub default_config : Config
  pub getenv : Str → Str
  pub read_file : Str → Result Str
  pub sha256_hex : Str → Str
  pub unmarshal_strict : Str → Config → Result (Unit {0}) × Config
  pub parse_flags : List Str → Config → Parsed × (Config × Options)
  pub validate : Config → Result (Unit {0})
  pub target : Config → List Str
  pub setup_tracing : Str → Config → Result (Unit {0})
  pub Service : Type 0
  pub new : Config → Result Service
  pub dependencies_of_all : Service → List Str
  pub user_visible_module_names : Service → List Str
  pub run : Service → Result (Unit {0})
  -- the greatest length of bytes that `make` accepts
  pub max_alloc : ℕ

abbrev pub Course : Type 0
Course = List Event × Ending

abbrev pub emit : List Event → Course → Course
emit es c = (es ++ c.0, c.1)

-- `log.CheckFatal` logs an error and exits.
abbrev pub check_fatal : Str → Result (Unit {0}) → Course
check_fatal location (ok u) = ([], returned)
check_fatal location (err e) = (fatal location e ∷ [], exited 1)

-- `os.Exit(code)`, but in test mode
abbrev pub exit_unless : Bool → ℕ → Course → Course
exit_unless test code next = if test then next else ([], exited code)

-- `make` panics on a negative length, and on one beyond the greatest.
abbrev pub out_of_range : ℕ → ℤ → Bool
out_of_range limit (pos n) = ltb limit n
out_of_range limit (negsuc n) = true

abbrev pub is_positive : ℤ → Bool
is_positive (pos n) = ltb 0 n
is_positive (negsuc n) = false

module _ (P : Program) where
  -- the error, the configuration, and the metric of the hash, which is of the file as it is read
  unfoldable pub load_config : Str → Bool → P.Config → Result (Unit {0}) × (P.Config × List Event)
  load_config filename expand cfg = elim (P.read_file filename) [
    | err e ↦ (wrapped (err e) (codes "Error reading config file"), (cfg, []))
    | ok buf ↦
        let (r, c) = P.unmarshal_strict (if expand then expand_env P.getenv buf else buf) cfg in
        (wrapped r (codes "Error parsing config file"), (c, config_hash (P.sha256_hex buf) ∷ []))
  ]

  -- `included`, for a module among the sorted dependencies
  unfoldable pub is_included : List Str → Str → Bool
  is_included all_deps m =
      let ix = search_strings all_deps m in
      ltb ix (length all_deps) && elim (get_elem? all_deps ix) [ none ↦ false | some d ↦ d == m ]

  abbrev pub listing : P.Service → List Event
  listing t =
      map (λ m. listed m (is_included (P.dependencies_of_all t) m)) (P.user_visible_module_names t)

  unfoldable pub serve : Options → P.Service → Course
  unfolding is_included
  serve o t =
      if o.print_modules
      then (listing t, returned)
      else emit (ran ∷ []) (check_fatal (codes "running cortex") (P.run t))

  abbrev pub made : Options → Result P.Service → Course
  made o (ok t) = serve o t
  made o (err e) = check_fatal (codes "initializing block storage ingester") (err e)

  abbrev pub trace_name : P.Config → Str
  trace_name cfg = elim (P.target cfg) [
    | m ∷ [] ↦ codes "cortex" ++ codes "-" ++ m
    | other ↦ codes "cortex"
  ]

  abbrev pub traced : Str → Result (Unit {0}) → List Event
  traced name (ok u) = tracing name ∷ []
  traced name (err e) = tracing_failed e ∷ []

  unfoldable pub profiles : Options → List Event
  profiles o =
      (if is_positive o.mutex_profile_fraction
        then mutex_profile o.mutex_profile_fraction ∷ []
        else [])
      ++ (if is_positive o.block_profile_rate then block_profile o.block_profile_rate ∷ [] else [])

  -- behind the validation, with the allocation of the ballast
  unfoldable pub start : Bool → Options → P.Config → Course
  unfolding serve profiles
  start test o cfg = emit (profiles o ++ logger ∷ []) (
      if out_of_range P.max_alloc o.ballast_bytes
      then ([], panicked)
      else emit
          (event_sampling o.event_sample_rate
            ∷ (if test then [] else traced (trace_name cfg) (P.setup_tracing (trace_name cfg) cfg)))
          (made o (P.new cfg)))

  abbrev pub unless_test : Bool → Options → P.Config → Course
  unless_test test o cfg =
      if test && not o.print_modules then (config_dumped ∷ [], returned) else start test o cfg

  abbrev pub validated : Bool → Options → P.Config → Result (Unit {0}) → Course
  validated test o cfg (ok u) = unless_test test o cfg
  validated test o cfg (err e) =
      emit (config_invalid e ∷ []) (exit_unless test 1 (unless_test test o cfg))

  unfoldable pub checked : Bool → P.Config × Options → Course
  unfolding start
  checked test (cfg, o) =
      if o.print_version then (version ∷ [], returned) else validated test o cfg (P.validate cfg)

  abbrev pub with_flags : Bool → Parsed × (P.Config × Options) → Course
  with_flags test (parsed, r) = checked test r
  with_flags test (help, r) = emit (usage ∷ []) (exit_unless test 2 (checked test r))
  with_flags test (refused, r) = emit (flags_refused ∷ []) (exit_unless test 2 (checked test r))

  abbrev pub loaded : Bool → Str → List Str → Result (Unit {0}) × (P.Config × List Event) → Course
  loaded test file args (ok u, (cfg, es)) = emit es (with_flags test (P.parse_flags args cfg))
  loaded test file args (err e, (cfg, es)) =
      emit (es ++ loading_failed file e ∷ []) (exit_unless test 1 ([], returned))

  -- the configuration before the flags are parsed
  abbrev pub initial : Found → Result (Unit {0}) × (P.Config × List Event)
  initial f =
      if f.config_file == []
      then (ok tt, (P.default_config, []))
      else load_config f.config_file f.expand_env P.default_config

  unfoldable pub main : Bool → List Str → Course
  unfolding load_config checked
  main test args =
      let f = parse_config_file_parameter args in loaded test f.config_file args (initial f)
