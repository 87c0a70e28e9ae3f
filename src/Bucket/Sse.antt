-- ===== src/Bucket/Sse.antt =====
-- pkg/storage/bucket/sse_bucket_client.go: a client that asks for a tenant's server-side
-- encryption (SSE) with every upload; pkg/storage/bucket/user_bucket_client.go: the client that
-- acts for a tenant.
pub mod Laws
pub mod Tenants
use blockstorageingestor.Prelude.{
  ℤ, pos, negsuc, at_most, above, ℕ, zero, suc, ◌+◌, ◌-◌, ◌*◌, ◌/◌, ◌%◌, ◌^◌, ◌≤◌, ◌<◌, ◌≡◌, refl,
  sym, ap, ◌∙◌, ◌≢◌, ◌↔◌, ◌⊎◌, inl, inr, Bool, true, false, not, ◌&&◌, ◌||◌, Option, none, some,
  List, [], ◌∷◌, ◌++◌, map, append-nil, append_assoc, arith, ltb, leb, nat_beq, nat_beq_iff,
  if◌then◌else◌, Comparable, ◌==◌, nat_eq, Bool-cases, Option-cases, length, get_elem?, take, drop,
  length-append, contains, All, All-append, Lacks, select, get_elem?-append, Str, codes, str_beq,
  str_beq_iff, str_eq, str_beq_refl, str_beq-append,
}
use blockstorageingestor.Errors.{Error, Result, ok, err, wrapped}
use blockstorageingestor.Exec.{Exec}
use blockstorageingestor.Objstore.{Reader, ReadCloser, Bucket}
use blockstorageingestor.Bucket.Prefixed.{prefixed, new_prefixed_bucket_client}
use blockstorageingestor.Bucket.S3.Config.{Library, SseConfig, build_minio_config}

pub record TenantConfigProvider : Type 0 where
  pub s3_sse_type : Str → Str
  pub s3_sse_kms_key_id : Str → Str
  pub s3_sse_kms_encryption_context : Str → Str

-- `context_with_sse` is `s3.ContextWithSSEConfig` of Thanos.
module _ (L : Library) (B : Bucket) (context_with_sse : B.Context → L.ServerSide → B.Context) where
  pub record SseBucketClient : Type 0 where
    pub user_id : Str
    pub bucket : B.Self
    pub cfg_provider : Option TenantConfigProvider

  abbrev pub new_sse_bucket_client : Str → B.Self → Option TenantConfigProvider → SseBucketClient
  new_sse_bucket_client user_id bucket cfg_provider = record {
    user_id = user_id;
    bucket = bucket;
    cfg_provider = cfg_provider;
  }

  unfoldable pub close : SseBucketClient → Exec B.State (Unit {0})
  close b = B.close b.bucket

  -- the configuration of a provider
  sse_of : TenantConfigProvider → Str → Result (Option L.ServerSide)
  sse_of p user_id =
      let type = p.s3_sse_type user_id in
      if type == []
      then ok none
      else wrapped
          (build_minio_config L (record {
            type = type;
            kms_key_id = p.s3_sse_kms_key_id user_id;
            kms_encryption_context = p.s3_sse_kms_encryption_context user_id;
          }))
          (codes "unable to customise S3 SSE config for tenant " ++ user_id)

  unfoldable pub get_custom_s3_sse_config : SseBucketClient → Result (Option L.ServerSide)
  unfolding sse_of
  get_custom_s3_sse_config b = elim b.cfg_provider [ none ↦ ok none | some p ↦ sse_of p b.user_id ]

  unfoldable pub upload : SseBucketClient → B.Context → Str → Reader → Exec B.State (Unit {0})
  upload b ctx name r s = elim (get_custom_s3_sse_config b) [
    | err e ↦ (err e, s)
    | ok none ↦ B.upload b.bucket ctx name r s
    | ok (some sse) ↦ B.upload b.bucket (context_with_sse ctx sse) name r s
  ]

  unfoldable pub delete : SseBucketClient → B.Context → Str → Exec B.State (Unit {0})
  delete b ctx name = B.delete b.bucket ctx name

  unfoldable pub name : SseBucketClient → Str
  name b = B.name b.bucket

  unfoldable pub iter :
      SseBucketClient
      → (X : Type 0) → B.Context
      → Str
      → (Str → Exec (B.State × X) (Unit {0}))
      → List B.IterOption
      → Exec (B.State × X) (Unit {0})
  iter b X ctx dir f options = B.iter b.bucket X ctx dir f options

  unfoldable pub get : SseBucketClient → B.Context → Str → Exec B.State ReadCloser
  get b ctx name = B.get b.bucket ctx name

  unfoldable pub get_range : SseBucketClient → B.Context → Str → ℤ → ℤ → Exec B.State ReadCloser
  get_range b ctx name off length = B.get_range b.bucket ctx name off length

  unfoldable pub exists : SseBucketClient → B.Context → Str → Exec B.State Bool
  exists b ctx name = B.exists b.bucket ctx name

  unfoldable pub is_obj_not_found_err : SseBucketClient → Option Error → Bool
  is_obj_not_found_err b e = B.is_obj_not_found_err b.bucket e

  unfoldable pub attributes : SseBucketClient → B.Context → Str → Exec B.State B.Attributes
  attributes b ctx name = B.attributes b.bucket ctx name

  unfoldable pub with_expected_errs : SseBucketClient → (Option Error → Bool) → SseBucketClient
  with_expected_errs b fn = elim (B.as_instrumented b.bucket) [
    | some ib ↦ record { user_id = b.user_id; bucket = ib fn; cfg_provider = b.cfg_provider }
    | none ↦ b
  ]

  -- The client as a bucket.
  abbrev pub sse_bucket : Bucket
  sse_bucket = record {
    Self = SseBucketClient;
    State = B.State;
    Context = B.Context;
    IterOption = B.IterOption;
    Attributes = B.Attributes;
    name = name;
    close = close;
    upload = upload;
    delete = delete;
    iter = iter;
    get = get;
    get_range = get_range;
    exists = exists;
    attributes = attributes;
    is_obj_not_found_err = is_obj_not_found_err;
    as_instrumented = λ b. some (with_expected_errs b);
  }
