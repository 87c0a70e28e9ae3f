-- ===== src/Tests/Service.antt =====
-- A service of small parts: its configuration, and the flags of its server.
use blockstorageingestor.Prelude.{
  ℕ, ◌<◌, ◌≡◌, refl, ◌⊎◌, true, ◌&&◌, List, [], ◌∷◌, ◌++◌, arith, nat_beq, if◌then◌else◌, ◌==◌,
  nat_eq, contains, All, Str, codes, str_beq, str_beq_iff, str_eq,
}
use blockstorageingestor.Errors.{Error, Result, ok, err, foreign, wrap}
use blockstorageingestor.Go.Flags.{var, sort_flags}
use blockstorageingestor.Ingester.Parts.{Section, Cortex}
use blockstorageingestor.Ingester.Config.{
  Config, Field, fields, defaults, validate, validate_yaml_empty_nodes, register_server_flags,
  min_time_between_pings, ping_without_stream_allowed,
}
use blockstorageingestor.Ingester.Config.Laws.{
  Check, Passed, checks, IsSound, IsEmptied, empty_node, validate_lem,
  validate_yaml_empty_nodes_lem,
}
use blockstorageingestor.Ingester.Config.ServerFlags.{
  IsFlagValue, with_defaults, register_server_flags_lem,
}

-- a part whose value is a number, with the default 7
abbrev level : Section
level = record {
  Value = ℕ;
  zero_value = 0;
  is_zero = λ x. nat_beq x 0;
  is_struct = true;
  register_flags = λ x fs. (7, fs);
}

-- a server with two flags, whose texts it keeps
abbrev two_flags : Section
two_flags = record {
  Value = Str × Str;
  zero_value = ([], []);
  is_zero = λ x. x.0 == [] && x.1 == [];
  is_struct = true;
  register_flags = λ x fs. (
    (codes "5m", codes "false"),
    var (var fs (codes "5m") min_time_between_pings (codes "Pings.")) (codes "false")
        ping_without_stream_allowed (codes "Streams."),
  );
}

abbrev positive : ℕ → Result (Unit {0})
positive x = if nat_beq x 0 then err (foreign 1) else ok tt

abbrev small : Cortex
small = record {
  api = level;
  server = two_flags;
  distributor = level;
  querier = level;
  ingester_client = level;
  ingester = level;
  flusher = level;
  storage = level;
  limits_config = level;
  prealloc = level;
  worker = level;
  frontend = level;
  query_range = level;
  blocks_storage = level;
  compactor = level;
  store_gateway = level;
  tenant_federation = level;
  ruler = level;
  ruler_storage = level;
  configs = level;
  alertmanager = level;
  alertmanager_storage = level;
  runtime_config = level;
  memberlist_kv = level;
  query_scheduler = level;
  tracing = level;
  Queryable = Unit;
  Pusher = Unit;
  csv_text = λ ts. [];
  strings_contain = contains;
  http_request_headers_to_log = λ x. [];
  append_grpc_middleware = λ x. x;
  append_grpc_stream_middleware = λ x. x;
  set_metrics_namespace = λ n x. x;
  set_exclude_request_in_log = λ b x. x;
  set_flag = λ n v x.
      if n == min_time_between_pings
      then (v, x.1)
      else if n == ping_without_stream_allowed
      then (x.0, v)
      else x;
  flag_text = λ n x.
      if n == min_time_between_pings
      then x.0
      else if n == ping_without_stream_allowed
      then x.1
      else [];
  shard_by_all_labels = λ x. true;
  validate_limits = λ x b. positive x;
  validate_storage = positive;
  validate_ruler_storage = positive;
  validate_blocks_storage = positive;
  validate_querier = positive;
  validate_ingester_client = positive;
  validate_worker = positive;
  validate_alertmanager_storage = positive;
  validate_tracing = positive;
  validate_ruler = λ x y. positive x;
  validate_distributor = λ x y. positive x;
  validate_query_range = λ x y. positive x;
  validate_store_gateway = λ x y. positive x;
  validate_compactor = λ x y. positive x;
  validate_alertmanager = λ x y. positive x;
}

small-IsFlagValue : IsFlagValue small
unfolding str_beq
small-IsFlagValue = record {
  pings = λ x. refl;
  allowed = λ x. refl;
  others = λ m n v x h. ground (
    arith,
    str_beq_iff m min_time_between_pings,
    str_beq_iff m ping_without_stream_allowed,
    str_beq_iff n min_time_between_pings,
    str_beq_iff n ping_without_stream_allowed,
  );
}

register_server_flags_lem_example :
    let (y, throwaway) = two_flags.register_flags ([], []) [] in
    (register_server_flags small ([], []) []).1 ≡ [] ++ with_defaults small y (sort_flags throwaway)
register_server_flags_lem_example = register_server_flags_lem small small-IsFlagValue ([], []) []

-- All parts have their defaults but the compactor, which is reset.
abbrev reset : Config small
reset = record (defaults small) { compactor = 0 }

validate_yaml_empty_nodes_lem_example :
    let r = validate_yaml_empty_nodes small reset in
    let Emptied = IsEmptied (fields small reset) (fields small (defaults small)) in
    (((i : ℕ) (f : Field) → Emptied i f → ⊥) × (r ≡ ok tt))
    ⊎ ((i : ℕ) × (f : Field) × Emptied i f
        × ((j : ℕ) (g : Field) → j < i → Emptied j g → ⊥)
        × (r ≡ err (empty_node f.name)))
validate_yaml_empty_nodes_lem_example = validate_yaml_empty_nodes_lem small reset

validate_lem_example :
    (IsSound small reset × All Passed (checks small reset) × (validate small reset ≡ ok tt))
    ⊎ ((ps : List Check) × (e : Error) × (msg : Str) × (qs : List Check) × IsSound small reset
        × All Passed ps
        × (checks small reset ≡ ps ++ (err e, msg) ∷ qs)
        × (validate small reset ≡ err (wrap e msg)))
    ⊎ ((e : Error) × (IsSound small reset → ⊥) × (validate small reset ≡ err e))
validate_lem_example = validate_lem small reset

reset_test : validate small reset ≡ err (empty_node (codes "Compactor"))
unfolding validate str_beq sort_flags var
reset_test = refl
