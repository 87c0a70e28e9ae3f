-- ===== src/Bucket/User.antt =====
-- pkg/storage/bucket/user_bucket_client.go: the client that acts for a tenant. It asks for the
-- tenant's server-side encryption, and sees the objects under the tenant's prefix.
pub mod Laws
use blockstorageingestor.Prelude.{
  ℤ, pos, negsuc, at_most, above, ℕ, zero, suc, ◌+◌, ◌-◌, ◌*◌, ◌/◌, ◌%◌, ◌^◌, ◌≤◌, ◌<◌, ◌≡◌, refl,
  sym, ap, ◌∙◌, ◌≢◌, ◌↔◌, ◌⊎◌, inl, inr, Bool, true, false, not, ◌&&◌, ◌||◌, Option, none, some,
  List, [], ◌∷◌, ◌++◌, map, append-nil, append_assoc, arith, ltb, leb, nat_beq, nat_beq_iff,
  if◌then◌else◌, Comparable, ◌==◌, nat_eq, Bool-cases, Option-cases, length, get_elem?, take, drop,
  length-append, contains, All, All-append, Lacks, select, get_elem?-append, Str, codes, str_beq,
  str_beq_iff, str_eq, str_beq_refl, str_beq-append,
}
use blockstorageingestor.Objstore.{Bucket}
use blockstorageingestor.Bucket.Prefixed.{prefixed, new_prefixed_bucket_client}
use blockstorageingestor.Bucket.S3.Config.{Library}
use blockstorageingestor.Bucket.Sse.{
  TenantConfigProvider, SseBucketClient, new_sse_bucket_client, sse_bucket,
}

module _ (L : Library) (B : Bucket) (with_sse : B.Context → L.ServerSide → B.Context) where
  -- The clients of tenants, as a bucket.
  abbrev pub user_bucket : Bucket
  user_bucket = sse_bucket L (prefixed B) with_sse

  abbrev pub new_user_bucket_client : Str → B.Self → Option TenantConfigProvider → user_bucket.Self
  new_user_bucket_client user_id bucket cfg_provider =
      new_sse_bucket_client L (prefixed B) with_sse user_id
        (new_prefixed_bucket_client B bucket user_id) cfg_provider
