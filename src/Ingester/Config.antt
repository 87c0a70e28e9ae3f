-- ===== src/Ingester/Config.antt =====
-- pkg/blockstorageingester/blockstorageingester.go: the configuration of the service.
pub mod Laws
pub mod ServerFlags
use blockstorageingestor.Prelude.{
  ℤ, pos, negsuc, at_most, above, ℕ, zero, suc, ◌+◌, ◌-◌, ◌*◌, ◌/◌, ◌%◌, ◌^◌, ◌≤◌, ◌<◌, ◌≡◌, refl,
  sym, ap, ◌∙◌, ◌≢◌, ◌↔◌, ◌⊎◌, inl, inr, Bool, true, false, not, ◌&&◌, ◌||◌, Option, none, some,
  List, [], ◌∷◌, ◌++◌, map, append-nil, append_assoc, arith, ltb, leb, nat_beq, nat_beq_iff,
  if◌then◌else◌, Comparable, ◌==◌, nat_eq, Bool-cases, Option-cases, length, get_elem?, take, drop,
  length-append, contains, All, All-append, Lacks, select, get_elem?-append, Str, codes, str_beq,
  str_beq_iff, str_eq, str_beq_refl, str_beq-append,
}
use blockstorageingestor.Errors.{
  Error, Result, ok, err, errorf, sentinel, invalid_http_prefix, wrapped, ◌>>◌,
}
use blockstorageingestor.Go.Strings.{has_prefix}
use blockstorageingestor.Ingester.Parts.{Section, Cortex}
use blockstorageingestor.Go.Flags.{Flag, FlagSet, var, sort_flags}

-- What `reflect` tells of a field: its name, whether its kind is a struct, whether it is zero.
pub record Field : Type 0 where
  pub name : Str
  pub is_struct : Bool
  pub is_zero : Bool

-- the loop of `validateYAMLEmptyNodes` over the fields of two configurations
unfoldable pub check_fields : List Field → List Field → Result (Unit {0})
check_fields [] ds = ok tt
check_fields (f ∷ fs) [] = ok tt
check_fields (f ∷ fs) (d ∷ ds) =
    let rest = check_fields fs ds in
    if f.is_struct && f.is_zero && not d.is_zero
    then err (
        errorf (
          codes "the "
          ++ f.name
          ++ codes " configuration in YAML has been specified as an empty YAML node"))
    else rest

abbrev pub mismatching_structure : Error
mismatching_structure =
    errorf (
      codes
        "unable to validate configuration because of mismatching internal config data structure")

-- the two flags of the server with another default
abbrev pub min_time_between_pings : Str
min_time_between_pings = codes "server.grpc.keepalive.min-time-between-pings"

abbrev pub ping_without_stream_allowed : Str
ping_without_stream_allowed = codes "server.grpc.keepalive.ping-without-stream-allowed"

module _ (C : Cortex) where
  pub record Config : Type 0 where
    pub target : List Str
    pub auth_enabled : Bool
    pub print_config : Bool
    pub http_prefix : Str
    pub external_queryable : Option C.Queryable
    pub external_pusher : Option C.Pusher
    pub api : C.api.Value
    pub server : C.server.Value
    pub distributor : C.distributor.Value
    pub querier : C.querier.Value
    pub ingester_client : C.ingester_client.Value
    pub ingester : C.ingester.Value
    pub flusher : C.flusher.Value
    pub storage : C.storage.Value
    pub limits_config : C.limits_config.Value
    pub prealloc : C.prealloc.Value
    pub worker : C.worker.Value
    pub frontend : C.frontend.Value
    pub query_range : C.query_range.Value
    pub blocks_storage : C.blocks_storage.Value
    pub compactor : C.compactor.Value
    pub store_gateway : C.store_gateway.Value
    pub tenant_federation : C.tenant_federation.Value
    pub ruler : C.ruler.Value
    pub ruler_storage : C.ruler_storage.Value
    pub configs : C.configs.Value
    pub alertmanager : C.alertmanager.Value
    pub alertmanager_storage : C.alertmanager_storage.Value
    pub runtime_config : C.runtime_config.Value
    pub memberlist_kv : C.memberlist_kv.Value
    pub query_scheduler : C.query_scheduler.Value
    pub tracing : C.tracing.Value

  -- the zero value of the struct
  abbrev pub zero_config : Config
  zero_config = record {
    target = [];
    auth_enabled = false;
    print_config = false;
    http_prefix = [];
    external_queryable = none;
    external_pusher = none;
    api = C.api.zero_value;
    server = C.server.zero_value;
    distributor = C.distributor.zero_value;
    querier = C.querier.zero_value;
    ingester_client = C.ingester_client.zero_value;
    ingester = C.ingester.zero_value;
    flusher = C.flusher.zero_value;
    storage = C.storage.zero_value;
    limits_config = C.limits_config.zero_value;
    prealloc = C.prealloc.zero_value;
    worker = C.worker.zero_value;
    frontend = C.frontend.zero_value;
    query_range = C.query_range.zero_value;
    blocks_storage = C.blocks_storage.zero_value;
    compactor = C.compactor.zero_value;
    store_gateway = C.store_gateway.zero_value;
    tenant_federation = C.tenant_federation.zero_value;
    ruler = C.ruler.zero_value;
    ruler_storage = C.ruler_storage.zero_value;
    configs = C.configs.zero_value;
    alertmanager = C.alertmanager.zero_value;
    alertmanager_storage = C.alertmanager_storage.zero_value;
    runtime_config = C.runtime_config.zero_value;
    memberlist_kv = C.memberlist_kv.zero_value;
    query_scheduler = C.query_scheduler.zero_value;
    tracing = C.tracing.zero_value;
  }

  -- the callback of `throwaway.VisitAll`
  unfoldable pub reregister : Flag → C.server.Value × FlagSet → C.server.Value × FlagSet
  reregister f (x, fs) =
      let y =
        if f.name == min_time_between_pings
        then C.set_flag f.name (codes "10s") x
        else if f.name == ping_without_stream_allowed
        then C.set_flag f.name (codes "true") x
        else x in
      (y, var fs (C.flag_text f.name y) f.name f.usage)

  unfoldable pub reregister_all : FlagSet → C.server.Value × FlagSet → C.server.Value × FlagSet
  unfolding reregister
  reregister_all [] s = s
  reregister_all (f ∷ throwaway) s = reregister_all throwaway (reregister f s)

  unfoldable pub register_server_flags : C.server.Value → FlagSet → C.server.Value × FlagSet
  unfolding reregister_all
  register_server_flags x fs =
      let (y, throwaway) = C.server.register_flags x [] in
      reregister_all (sort_flags throwaway) (y, fs)

  -- `RegisterFlags`: the defaults, and the flags of all parts.
  unfoldable pub register_flags : Config → FlagSet → Config × FlagSet
  unfolding register_server_flags
  register_flags c f =
      let server =
        C.set_exclude_request_in_log true (C.set_metrics_namespace (codes "cortex") c.server) in
      let f = var f (C.csv_text c.target) (codes "target") (
        codes
          "Comma-separated list of Cortex modules to load. The alias 'all' can be used in the list to load a number of core modules and will enable single-binary mode. Use '-modules' command line flag to get a list of available modules, and to see which modules are included in 'all'.") in
      let f = var f (codes "true") (codes "auth.enabled") (codes "Set to false to disable auth.") in
      let f = var f (codes "false") (codes "print.config") (codes "Print the config and exit.") in
      let f =
        var f (codes "/api/prom") (codes "http.prefix")
          (codes "HTTP path prefix for Cortex API.") in
      let (api, f) = C.api.register_flags c.api f in
      let (server, f) = register_server_flags server f in
      let (distributor, f) = C.distributor.register_flags c.distributor f in
      let (querier, f) = C.querier.register_flags c.querier f in
      let (ingester_client, f) = C.ingester_client.register_flags c.ingester_client f in
      let (ingester, f) = C.ingester.register_flags c.ingester f in
      let (flusher, f) = C.flusher.register_flags c.flusher f in
      let (storage, f) = C.storage.register_flags c.storage f in
      let (limits_config, f) = C.limits_config.register_flags c.limits_config f in
      let (prealloc, f) = C.prealloc.register_flags c.prealloc f in
      let (worker, f) = C.worker.register_flags c.worker f in
      let (frontend, f) = C.frontend.register_flags c.frontend f in
      let (query_range, f) = C.query_range.register_flags c.query_range f in
      let (blocks_storage, f) = C.blocks_storage.register_flags c.blocks_storage f in
      let (compactor, f) = C.compactor.register_flags c.compactor f in
      let (store_gateway, f) = C.store_gateway.register_flags c.store_gateway f in
      let (tenant_federation, f) = C.tenant_federation.register_flags c.tenant_federation f in
      let (ruler, f) = C.ruler.register_flags c.ruler f in
      let (ruler_storage, f) = C.ruler_storage.register_flags c.ruler_storage f in
      let (configs, f) = C.configs.register_flags c.configs f in
      let (alertmanager, f) = C.alertmanager.register_flags c.alertmanager f in
      let (alertmanager_storage, f) =
        C.alertmanager_storage.register_flags c.alertmanager_storage f in
      let (runtime_config, f) = C.runtime_config.register_flags c.runtime_config f in
      let (memberlist_kv, f) = C.memberlist_kv.register_flags c.memberlist_kv f in
      let (query_scheduler, f) = C.query_scheduler.register_flags c.query_scheduler f in
      let (tracing, f) = C.tracing.register_flags c.tracing f in
      (
        record {
          target = c.target;
          auth_enabled = true;
          print_config = false;
          http_prefix = codes "/api/prom";
          external_queryable = c.external_queryable;
          external_pusher = c.external_pusher;
          api = api;
          server = server;
          distributor = distributor;
          querier = querier;
          ingester_client = ingester_client;
          ingester = ingester;
          flusher = flusher;
          storage = storage;
          limits_config = limits_config;
          prealloc = prealloc;
          worker = worker;
          frontend = frontend;
          query_range = query_range;
          blocks_storage = blocks_storage;
          compactor = compactor;
          store_gateway = store_gateway;
          tenant_federation = tenant_federation;
          ruler = ruler;
          ruler_storage = ruler_storage;
          configs = configs;
          alertmanager = alertmanager;
          alertmanager_storage = alertmanager_storage;
          runtime_config = runtime_config;
          memberlist_kv = memberlist_kv;
          query_scheduler = query_scheduler;
          tracing = tracing;
        },
        f,
      )

  -- a field that is no struct, whose value is not read
  abbrev plain : Str → Field
  plain name = record { name = name; is_struct = false; is_zero = false }

  abbrev part : Str → (S : Section) → S.Value → Field
  part name S x = record { name = name; is_struct = S.is_struct; is_zero = S.is_zero x }

  -- the fields of the struct, in its order
  unfoldable pub fields : Config → List Field
  fields c =
      plain (codes "Target")
      ∷ plain (codes "AuthEnabled")
      ∷ plain (codes "PrintConfig")
      ∷ plain (codes "HTTPPrefix")
      ∷ plain (codes "ExternalQueryable")
      ∷ plain (codes "ExternalPusher")
      ∷ part (codes "API") C.api c.api
      ∷ part (codes "Server") C.server c.server
      ∷ part (codes "Distributor") C.distributor c.distributor
      ∷ part (codes "Querier") C.querier c.querier
      ∷ part (codes "IngesterClient") C.ingester_client c.ingester_client
      ∷ part (codes "Ingester") C.ingester c.ingester
      ∷ part (codes "Flusher") C.flusher c.flusher
      ∷ part (codes "Storage") C.storage c.storage
      ∷ part (codes "LimitsConfig") C.limits_config c.limits_config
      ∷ part (codes "Prealloc") C.prealloc c.prealloc
      ∷ part (codes "Worker") C.worker c.worker
      ∷ part (codes "Frontend") C.frontend c.frontend
      ∷ part (codes "QueryRange") C.query_range c.query_range
      ∷ part (codes "BlocksStorage") C.blocks_storage c.blocks_storage
      ∷ part (codes "Compactor") C.compactor c.compactor
      ∷ part (codes "StoreGateway") C.store_gateway c.store_gateway
      ∷ part (codes "TenantFederation") C.tenant_federation c.tenant_federation
      ∷ part (codes "Ruler") C.ruler c.ruler
      ∷ part (codes "RulerStorage") C.ruler_storage c.ruler_storage
      ∷ part (codes "Configs") C.configs c.configs
      ∷ part (codes "Alertmanager") C.alertmanager c.alertmanager
      ∷ part (codes "AlertmanagerStorage") C.alertmanager_storage c.alertmanager_storage
      ∷ part (codes "RuntimeConfig") C.runtime_config c.runtime_config
      ∷ part (codes "MemberlistKV") C.memberlist_kv c.memberlist_kv
      ∷ part (codes "QueryScheduler") C.query_scheduler c.query_scheduler
      ∷ part (codes "Tracing") C.tracing c.tracing
      ∷ []

  -- `flagext.DefaultValues(&defaults)` registers the flags of a zero configuration.
  unfoldable pub defaults : Config
  unfolding register_flags
  defaults = (register_flags zero_config []).0

  unfoldable pub validate_yaml_empty_nodes : Config → Result (Unit {0})
  unfolding fields defaults check_fields
  validate_yaml_empty_nodes c =
      if not (nat_beq (length (fields c)) (length (fields defaults)))
      then err mismatching_structure
      else check_fields (fields c) (fields defaults)

  unfoldable pub validate : Config → Result (Unit {0})
  unfolding validate_yaml_empty_nodes
  validate c =
      validate_yaml_empty_nodes c
      >> (if not (c.http_prefix == []) && not (has_prefix c.http_prefix (codes "/"))
          then err (sentinel invalid_http_prefix)
          else ok tt)
      >> wrapped (C.validate_storage c.storage) (codes "invalid storage config")
      >> wrapped (C.validate_ruler_storage c.ruler_storage) (codes "invalid rulestore config")
      >> wrapped (C.validate_ruler c.ruler c.limits_config) (codes "invalid ruler config")
      >> wrapped (C.validate_blocks_storage c.blocks_storage) (codes "invalid TSDB config")
      >> wrapped (C.validate_limits c.limits_config (C.shard_by_all_labels c.distributor))
          (codes "invalid limits config")
      >> wrapped (C.validate_distributor c.distributor c.limits_config)
          (codes "invalid distributor config")
      >> wrapped (C.validate_querier c.querier) (codes "invalid querier config")
      >> wrapped (C.validate_ingester_client c.ingester_client)
          (codes "invalid ingester_client config")
      >> wrapped (C.validate_worker c.worker) (codes "invalid frontend_worker config")
      >> wrapped (C.validate_query_range c.query_range c.querier)
          (codes "invalid query_range config")
      >> wrapped (C.validate_store_gateway c.store_gateway c.limits_config)
          (codes "invalid store-gateway config")
      >> wrapped (C.validate_compactor c.compactor c.limits_config)
          (codes "invalid compactor config")
      >> wrapped (C.validate_alertmanager_storage c.alertmanager_storage)
          (codes "invalid alertmanager storage config")
      >> wrapped (C.validate_alertmanager c.alertmanager c.alertmanager_storage)
          (codes "invalid alertmanager config")
      >> wrapped (C.validate_tracing c.tracing) (codes "invalid tracing config")

  abbrev pub is_module_enabled : Config → Str → Bool
  is_module_enabled c m = C.strings_contain c.target m

  abbrev pub setup_grpc_header_forwarding : Config → Config
  setup_grpc_header_forwarding c =
      if ltb 0 (length (C.http_request_headers_to_log c.api))
      then record c { server = C.append_grpc_stream_middleware (C.append_grpc_middleware c.server) }
      else c
