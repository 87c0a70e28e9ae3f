-- ===== src/Bucket/User/Laws.antt =====
-- Tenants work on reliable object stores of their own.
use blockstorageingestor.Prelude.{nat_eq, str_eq}
use blockstorageingestor.Objstore.{Bucket}
use blockstorageingestor.Objstore.Lawful.{IsReliable, Reading}
use blockstorageingestor.Bucket.S3.Config.{Library}
use blockstorageingestor.Bucket.Prefixed.Laws.{prefixed_reading, prefixed-IsReliable}
use blockstorageingestor.Bucket.Sse.Laws.{sse_reading, sse_bucket-IsReliable}
use blockstorageingestor.Bucket.Prefixed.{prefixed}
use blockstorageingestor.Bucket.User.{user_bucket}

module _ (L : Library) (B : Bucket) (with_sse : B.Context → L.ServerSide → B.Context)
    (V : Reading B) where
  abbrev pub user_reading : Reading (user_bucket L B with_sse)
  user_reading = sse_reading L (prefixed B) with_sse (prefixed_reading B V)

  pub user_bucket-IsReliable : IsReliable B V → IsReliable (user_bucket L B with_sse) user_reading
  user_bucket-IsReliable R =
      sse_bucket-IsReliable L (prefixed B) with_sse (prefixed_reading B V)
        (prefixed-IsReliable B V R)
