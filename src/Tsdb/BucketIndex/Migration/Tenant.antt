-- ===== src/Tsdb/BucketIndex/Migration/Tenant.antt =====
-- The migration of a tenant's marks.
use blockstorageingestor.Prelude.{
  ◌≡◌, refl, ◌≢◌, Bool, true, Option, some, List, [], if◌then◌else◌, nat_eq, contains, Str, str_eq,
}
use blockstorageingestor.Errors.{Error, ok}
use blockstorageingestor.Go.Strings.{has_prefix}
use blockstorageingestor.Objstore.{Bucket}
use blockstorageingestor.Objstore.Lawful.{Reading, IsReliable}
use blockstorageingestor.Bucket.S3.Config.{Library}
use blockstorageingestor.Bucket.Sse.{TenantConfigProvider}
use blockstorageingestor.Bucket.User.{user_bucket, new_user_bucket_client}
use blockstorageingestor.Bucket.User.Laws.{user_reading, user_bucket-IsReliable}
use blockstorageingestor.Tsdb.BucketIndex.Markers.{
  BlockFormat, IsBlockFormat, markers_pathname, mark_filepath,
}
use blockstorageingestor.Tsdb.BucketIndex.Migration.{
  migration_client, migrate_block_deletion_marks_to_global_location,
}
use blockstorageingestor.Tsdb.BucketIndex.Migration.Copies.{or_keep}
use blockstorageingestor.Tsdb.BucketIndex.Migration.Laws.{Closes, mark_path}
use blockstorageingestor.Tsdb.BucketIndex.Migration.Paths.{IsMark, markers_dir, migrate-marks}

module _ (T : BlockFormat) (W : IsBlockFormat T)
    (no_markers : (id : T.ULID) → T.to_string id ≢ markers_pathname) (L : Library) (B : Bucket)
    (with_sse : B.Context → L.ServerSide → B.Context) (V : Reading B) (R : IsReliable B V) where
  -- Over a reliable store that accepts the tenant's uploads, whose objects can be closed without an
  -- error, and with no block named as the directory of marks: the migration returns no error; for
  -- each block that is listed, and each kind of mark, the mark in the block's directory is at its
  -- global place, and what was there stays if the block has no such mark; and nothing outside the
  -- directory of marks changes.
  pub migrate_lem :
      (multi : List Error → Error) (order : T.ULID → Bool) (ctx : B.Context) (bkt : B.Self)
      (user_id : Str) (provider : Option TenantConfigProvider) (s : B.State) (id : T.ULID) (f : Str)
      (e : Str)
      → let U = user_bucket L B with_sse in
        let u = migration_client T L B with_sse bkt user_id provider in
        let seen = (user_reading L B with_sse V).view u in
        (user_reading L B with_sse V).Accepts
          (new_user_bucket_client L B with_sse user_id bkt provider)
        → ((n : Str) (t : B.State) → Closes U ctx u n t)
        → IsMark T f
        → contains ((user_reading L B with_sse V).entries u s []) e ≡ true
        → T.is_block_dir e ≡ some id
        → let out =
            migrate_block_deletion_marks_to_global_location T L B with_sse multi order ctx bkt
              user_id provider s in
          (out.0 ≡ ok tt)
          × (seen out.1 (mark_filepath T f id)
              ≡ or_keep (seen s (mark_path T id f)) (seen s (mark_filepath T f id)))
          × ((m : Str)
              → seen out.1 m ≡ (if has_prefix m markers_dir then seen out.1 m else seen s m))
  unfolding migrate_block_deletion_marks_to_global_location
  migrate_lem multi order ctx bkt user_id provider s id f e a closes k l i =
      let U = user_bucket L B with_sse in
      let UV = user_reading L B with_sse V in
      let UR = user_bucket-IsReliable L B with_sse V R in
      let u = migration_client T L B with_sse bkt user_id provider in
      let first = new_user_bucket_client L B with_sse user_id bkt provider in
      migrate-marks T W no_markers U UV UR u ctx
        ((UR.instrumented-same first _ (U.is_obj_not_found_err first) refl).0 a) closes multi order
        s id f e k l i
