-- ===== src/Command/Start/Laws.antt =====
-- When the service is run.
use blockstorageingestor.Prelude.{
  ◌≡◌, refl, ◌↔◌, inl, inr, Bool, true, false, ◌||◌, List, [], ◌∷◌, ◌++◌, map, arith, if◌then◌else◌,
  nat_eq, Str, codes, str_eq,
}
use blockstorageingestor.Errors.{Result, ok, err, Result-cases}
use blockstorageingestor.Command.Arguments.{Found, parse_config_file_parameter}
use blockstorageingestor.Command.Start.{
  version, returned, panicked, Program, Options, Event, ran, listed, Course, emit, Parsed, parsed,
  help, refused, check_fatal, out_of_range, made, serve, profiles, traced, start, validated,
  checked, with_flags, loaded, load_config, initial, main, trace_name, loading_failed, logger,
  event_sampling, is_included,
}

abbrev is_ran : Event → Bool
is_ran ran = true
is_ran e = false

abbrev pub has_ran : List Event → Bool
has_ran [] = false
has_ran (e ∷ es) = is_ran e || has_ran es

has_ran-append : (xs ys : List Event) → has_ran (xs ++ ys) ≡ (has_ran xs || has_ran ys)
has_ran-append [] ys = refl
has_ran-append (x ∷ xs) ys = ground (arith, has_ran-append xs ys)

emit-ran :
    (es : List Event) (c : Course)
    → has_ran es ≡ false
    → has_ran (emit es c).0 ≡ true
    → has_ran c.0 ≡ true
emit-ran es c q h = ground (arith, has_ran-append es c.0)

if-ran :
    (b : Bool) (c d : Course)
    → has_ran c.0 ≡ false
    → has_ran (if b then c else d).0 ≡ true
    → (b ≡ false) × (has_ran d.0 ≡ true)
if-ran true c d q h = let no : ⊥ = cc in elim no [ ]
if-ran false c d q h = (refl, h)

module _ (P : Program) where
  listing-quiet :
      (deps : List Str) (ms : List Str)
      → has_ran (map (λ m. listed m (is_included P deps m)) ms) ≡ false
  listing-quiet deps [] = refl
  listing-quiet deps (m ∷ ms) = listing-quiet deps ms

  profiles-quiet : (o : Options) → has_ran (profiles P o) ≡ false
  unfolding profiles
  profiles-quiet o = ground arith

  traced-quiet : (n : Str) (r : Result (Unit {0})) → has_ran (traced P n r) ≡ false
  traced-quiet n (ok u) = refl
  traced-quiet n (err e) = refl

  load_config-quiet :
      (file : Str) (expand : Bool) (cfg : P.Config)
      → has_ran (load_config P file expand cfg).1.1 ≡ false
  unfolding load_config
  load_config-quiet file expand cfg = elim (Result-cases (P.read_file file)) [
    | inl (buf, h) ↦ rw (h, load_config) refl
    | inr (e, h) ↦ rw (h, load_config) refl
  ]

  initial-quiet : (f : Found) → has_ran (initial P f).1.1 ≡ false
  initial-quiet f = ground (arith, load_config-quiet f.config_file f.expand_env P.default_config)

  -- A course that runs the service, and how it ends then.
  abbrev Runs : P.Service → Course → Type 0
  Runs t c = (has_ran c.0 ≡ true) × (c.1 ≡ (check_fatal (codes "running cortex") (P.run t)).1)

  -- the conditions behind the validation
  abbrev pub IsServed : Options → P.Config → P.Service → Type 0
  IsServed o cfg t =
      (out_of_range P.max_alloc o.ballast_bytes ≡ false)
      × (P.new cfg ≡ ok t)
      × (o.print_modules ≡ false)

  serve-ran :
      (o : Options) (t : P.Service) → has_ran (serve P o t).0 ≡ true → o.print_modules ≡ false
  unfolding serve
  serve-ran o t h =
      ground (arith, h, listing-quiet (P.dependencies_of_all t) (P.user_visible_module_names t))

  made-ran :
      (o : Options) (r : Result P.Service)
      → has_ran (made P o r).0 ≡ true
      → (t : P.Service) × (r ≡ ok t) × (o.print_modules ≡ false)
  made-ran o (ok t) h = (t, refl, serve-ran o t h)
  made-ran o (err e) h = let no : ⊥ = cc in elim no [ ]

  -- what comes before the ballast is made, and behind it
  abbrev before_trace : Options → List Event
  before_trace o = profiles P o ++ logger ∷ []

  abbrev trace : Options → P.Config → List Event
  trace o cfg =
      let name = trace_name P cfg in
      event_sampling o.event_sample_rate ∷ traced P name (P.setup_tracing name cfg)

  start-ran :
      (o : Options) (cfg : P.Config)
      → has_ran (start P false o cfg).0 ≡ true
      → (t : P.Service) × IsServed o cfg t
  unfolding start
  start-ran o cfg h =
      let quiet : has_ran (before_trace o) ≡ false =
        ground (arith, has_ran-append (profiles P o) (logger ∷ []), profiles-quiet o) in
      let course = emit (trace o cfg) (made P o (P.new cfg)) in
      let neg = out_of_range P.max_alloc o.ballast_bytes in
      let (n, k) =
        if-ran neg ([], panicked) course refl
          (emit-ran (before_trace o) (if neg then ([], panicked) else course) quiet h) in
      let name = trace_name P cfg in
      let (t, made_ok, no_listing) = made-ran o (P.new cfg) (
        emit-ran (trace o cfg) (made P o (P.new cfg)) (traced-quiet name (P.setup_tracing name cfg))
          k) in
      (t, (n, made_ok, no_listing))

  validated-ran :
      (o : Options) (cfg : P.Config) (r : Result (Unit {0}))
      → has_ran (validated P false o cfg r).0 ≡ true
      → (r ≡ ok tt) × (has_ran (start P false o cfg).0 ≡ true)
  validated-ran o cfg (ok u) h = (refl, h)
  validated-ran o cfg (err e) h = let no : ⊥ = cc in elim no [ ]

  checked-ran :
      (cfg : P.Config) (o : Options)
      → has_ran (checked P false (cfg, o)).0 ≡ true
      → (o.print_version ≡ false) × (P.validate cfg ≡ ok tt) × ((t : P.Service) × IsServed o cfg t)
  unfolding checked
  checked-ran cfg o h =
      let (v, k) =
        if-ran o.print_version (version ∷ [], returned) (validated P false o cfg (P.validate cfg))
          refl h in
      let (valid, s) = validated-ran o cfg (P.validate cfg) k in (v, valid, start-ran o cfg s)

  with_flags-ran :
      (r : Parsed) (c : P.Config × Options)
      → has_ran (with_flags P false (r, c)).0 ≡ true
      → (r ≡ parsed) × (has_ran (checked P false c).0 ≡ true)
  with_flags-ran parsed c h = (refl, h)
  with_flags-ran help c h = let no : ⊥ = cc in elim no [ ]
  with_flags-ran refused c h = let no : ⊥ = cc in elim no [ ]

  loaded-ran :
      (file : Str) (args : List Str) (r : Result (Unit {0})) (cfg : P.Config) (es : List Event)
      → has_ran es ≡ false
      → has_ran (loaded P false file args (r, (cfg, es))).0 ≡ true
      → (r ≡ ok tt) × (has_ran (with_flags P false (P.parse_flags args cfg)).0 ≡ true)
  loaded-ran file args (ok u) cfg es q h =
      (refl, emit-ran es (with_flags P false (P.parse_flags args cfg)) q h)
  loaded-ran file args (err e) cfg es q h =
      let no : ⊥ = ground (
        arith,
        h,
        q,
        has_ran-append (es ++ loading_failed file e ∷ []) [],
        has_ran-append es (loading_failed file e ∷ []),
      ) in
      elim no [ ]

  -- The service `t` is made from the arguments: the file, if there is one, can be loaded, the flags
  -- parsed and none of them asks for something else, the configuration is valid, and the ballast
  -- has a length that can be made.
  pub record IsStarted (args : List Str) (t : P.Service) : Type 0 where
    pub load_ok : (initial P (parse_config_file_parameter args)).0 ≡ ok tt
    pub config : P.Config
    pub options : Options
    pub flags_ok :
        P.parse_flags args (initial P (parse_config_file_parameter args)).1.0
        ≡ (parsed, (config, options))
    pub no_version : options.print_version ≡ false
    pub valid : P.validate config ≡ ok tt
    pub served : IsServed options config t

  main-IsStarted :
      (args : List Str) → has_ran (main P false args).0 ≡ true → (t : P.Service) × IsStarted args t
  unfolding main
  main-IsStarted args h =
      let f = parse_config_file_parameter args in
      let i = initial P f in
      let (l, k) = loaded-ran f.config_file args i.0 i.1.0 i.1.1 (initial-quiet f) h in
      let p = P.parse_flags args i.1.0 in
      let (g, c) = with_flags-ran p.0 p.1 k in
      let (v, valid, (t, s)) = checked-ran p.1.0 p.1.1 c in
      (
        t,
        record {
          load_ok = l;
          config = p.1.0;
          options = p.1.1;
          flags_ok = λ j. (g j, p.1);
          no_version = v;
          valid = valid;
          served = s;
        },
      )

  emit-Runs : (t : P.Service) (es : List Event) (c : Course) → Runs t c → Runs t (emit es c)
  emit-Runs t es c h = (ground (arith, has_ran-append es c.0, h.0), h.1)

  served-Runs :
      (o : Options) (cfg : P.Config) (t : P.Service)
      → IsServed o cfg t
      → Runs t (start P false o cfg)
  unfolding start serve
  served-Runs o cfg t (n, m, l) =
      let course = emit (ran ∷ []) (check_fatal (codes "running cortex") (P.run t)) in
      rw (start, n, m, serve, l)
        (emit-Runs t (before_trace o) (emit (trace o cfg) course)
          (emit-Runs t (trace o cfg) course (refl, refl)))

  loaded-Runs :
      (t : P.Service) (file : Str) (args : List Str) (r : Result (Unit {0})) (cfg : P.Config)
      (es : List Event)
      → r ≡ ok tt
      → Runs t (with_flags P false (P.parse_flags args cfg))
      → Runs t (loaded P false file args (r, (cfg, es)))
  loaded-Runs t file args (ok u) cfg es q h =
      emit-Runs t es (with_flags P false (P.parse_flags args cfg)) h
  loaded-Runs t file args (err e) cfg es q h = let no : ⊥ = cc in elim no [ ]

  IsStarted-Runs : (args : List Str) (t : P.Service) → IsStarted args t → Runs t (main P false args)
  unfolding main checked
  IsStarted-Runs args t s =
      let f = parse_config_file_parameter args in
      let i = initial P f in
      loaded-Runs t f.config_file args i.0 i.1.0 i.1.1 s.load_ok (
        rw (s.flags_ok, checked, s.no_version, s.valid) (served-Runs s.options s.config t s.served))

  -- Outside the mode for tests, the program runs the service exactly if it can be started from the
  -- arguments: the file, if there is one, can be loaded, the flags parsed and none of them asks for
  -- something else, the configuration is valid, the ballast has a length that can be made, and the
  -- service can be made. It ends then as the run of that service does: it returns, or exits with
  -- the status 1.
  pub main_lem :
      (args : List Str)
      → ((has_ran (main P false args).0 ≡ true) ↔ ((t : P.Service) × IsStarted args t))
        × ((has_ran (main P false args).0 ≡ true) ↔ (
            (t : P.Service) × IsStarted args t
            × ((main P false args).1 ≡ (check_fatal (codes "running cortex") (P.run t)).1)))
  main_lem args = (
    (main-IsStarted args, λ (t, s). (IsStarted-Runs args t s).0),
    (
      λ h. (let (t, s) = main-IsStarted args h in (t, s, (IsStarted-Runs args t s).1)),
      λ (t, s, e). (IsStarted-Runs args t s).0,
    ),
  )
