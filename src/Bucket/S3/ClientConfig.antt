-- ===== src/Bucket/S3/ClientConfig.antt =====
-- pkg/storage/bucket/s3/bucket_client.go, `newS3Config`: the configuration that the S3 client of
-- Thanos is given.
use blockstorageingestor.Prelude.{Bool, [], ◌==◌, nat_eq, Str, str_eq}
use blockstorageingestor.Errors.{Result, ok, ◌>>=◌}
use blockstorageingestor.Bucket.S3.Config.{
  Library, HttpConfig, Config, BucketLookupType, ThanosSseConfig, build_thanos_config,
  bucket_lookup_type, signature_version_v2,
}

module _ (L : Library) where
  -- `s3.Config` of Thanos, as far as it is filled; its HTTP options are ours, field by field.
  pub record ThanosConfig : Type 0 where
    pub bucket : Str
    pub endpoint : Str
    pub region : Str
    pub access_key : Str
    pub secret_key : Str
    pub insecure : Bool
    pub sse_config : ThanosSseConfig L
    pub http_config : HttpConfig L
    pub signature_v2 : Bool
    pub bucket_lookup : BucketLookupType
    pub aws_sdk_auth : Bool

  unfoldable pub new_s3_config : Config L → Result ThanosConfig
  new_s3_config cfg = do
    sse ← build_thanos_config L cfg.sse
    lookup ← bucket_lookup_type L cfg
    ok (record {
      bucket = cfg.bucket_name;
      endpoint = cfg.endpoint;
      region = cfg.region;
      access_key = cfg.access_key_id;
      secret_key = cfg.secret_access_key;
      insecure = cfg.insecure;
      sse_config = sse;
      http_config = cfg.http;
      signature_v2 = cfg.signature_version == signature_version_v2;
      bucket_lookup = lookup;
      aws_sdk_auth = cfg.access_key_id == [];
    })
