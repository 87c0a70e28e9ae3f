-- ===== src/Ingester/Parts.antt =====
-- pkg/blockstorageingester/blockstorageingester.go: the parts of the service's configuration, whose
-- types stand in the packages of Cortex.
use blockstorageingestor.Prelude.{Bool, List, nat_eq, Str, str_eq}
use blockstorageingestor.Errors.{Result}
use blockstorageingestor.Go.Flags.{FlagSet}

-- A part of the configuration, whose type is a library's. `is_zero` is `reflect.Value.IsZero`;
-- `register_flags` gives the part its defaults, and adds its flags to a set.
pub record Section : Type 1 where
  pub Value : Type 0
  pub zero_value : Value
  pub is_zero : Value → Bool
  pub is_struct : Bool
  pub register_flags : Value → FlagSet → Value × FlagSet

-- The packages of Cortex whose configurations the service holds. `Validate` of a part is taken to
-- return an error or nil, and to change nothing.
pub record Cortex : Type 1 where
  pub api : Section
  pub server : Section
  pub distributor : Section
  pub querier : Section
  pub ingester_client : Section
  pub ingester : Section
  pub flusher : Section
  pub storage : Section
  pub limits_config : Section
  pub prealloc : Section
  pub worker : Section
  pub frontend : Section
  pub query_range : Section
  pub blocks_storage : Section
  pub compactor : Section
  pub store_gateway : Section
  pub tenant_federation : Section
  pub ruler : Section
  pub ruler_storage : Section
  pub configs : Section
  pub alertmanager : Section
  pub alertmanager_storage : Section
  pub runtime_config : Section
  pub memberlist_kv : Section
  pub query_scheduler : Section
  pub tracing : Section
  pub Queryable : Type 0
  pub Pusher : Type 0
  -- `StringSliceCSV.String`, `util.StringsContain`
  pub csv_text : List Str → Str
  pub strings_contain : List Str → Str → Bool
  -- `c.Server.MetricsNamespace = s`, `c.Server.ExcludeRequestInLog = b`
  pub set_metrics_namespace : Str → server.Value → server.Value
  pub set_exclude_request_in_log : Bool → server.Value → server.Value
  -- `Value.Set` and `Value.String` of the server's flag of a name
  pub set_flag : Str → Str → server.Value → server.Value
  pub flag_text : Str → server.Value → Str
  -- `API.HTTPRequestHeadersToLog`; `Server.GRPCMiddleware` and `Server.GRPCStreamMiddleware` with
  -- the interceptor that propagates headers at their ends
  pub http_request_headers_to_log : api.Value → List Str
  pub append_grpc_middleware : server.Value → server.Value
  pub append_grpc_stream_middleware : server.Value → server.Value
  pub shard_by_all_labels : distributor.Value → Bool
  pub validate_storage : storage.Value → Result (Unit {0})
  pub validate_ruler_storage : ruler_storage.Value → Result (Unit {0})
  pub validate_ruler : ruler.Value → limits_config.Value → Result (Unit {0})
  pub validate_blocks_storage : blocks_storage.Value → Result (Unit {0})
  pub validate_limits : limits_config.Value → Bool → Result (Unit {0})
  pub validate_distributor : distributor.Value → limits_config.Value → Result (Unit {0})
  pub validate_querier : querier.Value → Result (Unit {0})
  pub validate_ingester_client : ingester_client.Value → Result (Unit {0})
  pub validate_worker : worker.Value → Result (Unit {0})
  pub validate_query_range : query_range.Value → querier.Value → Result (Unit {0})
  pub validate_store_gateway : store_gateway.Value → limits_config.Value → Result (Unit {0})
  pub validate_compactor : compactor.Value → limits_config.Value → Result (Unit {0})
  pub validate_alertmanager_storage : alertmanager_storage.Value → Result (Unit {0})
  pub validate_alertmanager : alertmanager.Value → alertmanager_storage.Value → Result (Unit {0})
  pub validate_tracing : tracing.Value → Result (Unit {0})
