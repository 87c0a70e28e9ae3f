-- ===== src/Tsdb/DeletionMark/Laws.antt =====
-- The mark that is read is the one that was written, and the test for a mark looks where marks are
-- written.
use blockstorageingestor.Prelude.{
  ◌≡◌, refl, sym, ap, ◌∙◌, ◌≢◌, inl, true, Option, none, some, [], ◌∷◌, ◌++◌, arith, nat_eq, Str,
  codes, str_eq, str_beq_refl,
}
use blockstorageingestor.Errors.{Result, ok, err}
use blockstorageingestor.Encoding.{Json, IsJsonCodec}
use blockstorageingestor.Go.Strings.{join}
use blockstorageingestor.Go.FilePath.Laws.{IsPlain, path_join-join}
use blockstorageingestor.Objstore.{Reader, Bucket, bytes_reader, dir_delim}
use blockstorageingestor.Objstore.Lawful.{Reading, IsReliable, IsFresh, is_some}
use blockstorageingestor.Bucket.S3.Config.{Library}
use blockstorageingestor.Bucket.S3.Config.Laws.{Succeeds}
use blockstorageingestor.Bucket.Sse.{TenantConfigProvider, get_custom_s3_sse_config}
use blockstorageingestor.Bucket.Prefixed.{prefixed, full_name}
use blockstorageingestor.Bucket.Sse.Laws.{upload-Succeeds}
use blockstorageingestor.Bucket.Prefixed.Laws.{prefixed_isolated}
use blockstorageingestor.Bucket.User.{user_bucket, new_user_bucket_client}
use blockstorageingestor.Bucket.User.Laws.{user_reading, user_bucket-IsReliable}
use blockstorageingestor.Tsdb.DeletionMark.{
  tenant_deletion_mark_path, TenantDeletionMark, marker_file, tenant_deletion_mark_exists,
  read_tenant_deletion_mark, fetched, write_tenant_deletion_mark, uploaded,
}

-- The file that is tested and read is the object that the tenant's client writes.
pub marker_file-eq :
    (B : Bucket) (u : Str)
    → IsPlain u
    → marker_file B u ≡ u ++ dir_delim ∷ tenant_deletion_mark_path
unfolding join
marker_file-eq B u h =
    path_join-join (u ∷ []) (codes "markers" ∷ codes "tenant-deletion-mark.json" ∷ []) (cc) (cc)
      (h, tt) (plain_markers, (plain_file, tt))
  where
    plain_markers : IsPlain (codes "markers")
    plain_markers = record { not_empty = cc; not_dot = cc; not_dot_dot = cc; lacks = omega arith }

    plain_file : IsPlain (codes "tenant-deletion-mark.json")
    plain_file = record { not_empty = cc; not_dot = cc; not_dot_dot = cc; lacks = omega arith }

module _ (B : Bucket) (J : Json TenantDeletionMark) (V : Reading B) (R : IsReliable B V)
    (bkt : B.Self) (ctx : B.Context) (u : Str) (s : B.State) where
  -- Over a reliable store, and with a decoder that reads `mark` from the content that is stored:
  -- `ReadTenantDeletionMark` returns it; with no object it returns no mark and no error.
  pub read_tenant_deletion_mark_lem :
      (V.view bkt s (marker_file B u) ≡ none
        → (read_tenant_deletion_mark B J bkt ctx u s).0 ≡ ok none)
      × ((t : Str) (mark : TenantDeletionMark)
          → V.view bkt s (marker_file B u) ≡ some t
          → ((r : Reader) → IsFresh r t → J.decode r ≡ ok mark)
          → (read_tenant_deletion_mark B J bkt ctx u s).0 ≡ ok (some mark))
  unfolding read_tenant_deletion_mark
  read_tenant_deletion_mark_lem = (
    (λ e.
        let (x, got, missing) = R.get_absent bkt ctx (marker_file B u) s e in
        rw (got, fetched, missing) refl),
    (λ t mark e parse.
        let (rc, got, fresh) = R.get_present bkt ctx (marker_file B u) s t e in
        rw (got, fetched, parse rc.reader fresh) refl),
  )

module _ (L : Library) (B : Bucket) (with_sse : B.Context → L.ServerSide → B.Context)
    (J : Json TenantDeletionMark) (V : Reading B) (R : IsReliable B V) (bkt : B.Self)
    (ctx : B.Context) (u : Str) (provider : Option TenantConfigProvider) where
  abbrev client : (user_bucket L B with_sse).Self
  client = new_user_bucket_client L B with_sse u bkt provider

  lawful : IsReliable (user_bucket L B with_sse) (user_reading L B with_sse V)
  lawful = user_bucket-IsReliable L B with_sse V R

  abbrev upload_mark : Str → B.State → Result (Unit {0}) × B.State
  upload_mark t s =
      (user_bucket L B with_sse).upload client ctx tenant_deletion_mark_path (bytes_reader t) s

  uploaded-view :
      (t : Str) (s : B.State)
      → V.Accepts bkt
      → Succeeds (get_custom_s3_sse_config L (prefixed B) with_sse client)
      → IsPlain u
      → V.view bkt (upload_mark t s).1 (marker_file B u) ≡ some t
  unfolding full_name
  uploaded-view t s a k h =
      ap (V.view bkt (upload_mark t s).1) (marker_file-eq B u h)
      ∙ lawful.view-upload client ctx tenant_deletion_mark_path (bytes_reader t) s t (a, k)
          (inl refl) tenant_deletion_mark_path
      ∙ rw (str_beq_refl tenant_deletion_mark_path) refl

  -- Over a reliable store that accepts the tenant's uploads, for a tenant whose name is a plain
  -- path component: `WriteTenantDeletionMark` succeeds, and then the mark exists, and
  -- `ReadTenantDeletionMark` returns it.
  pub mark_written :
      V.Accepts bkt
      → Succeeds (get_custom_s3_sse_config L (prefixed B) with_sse client)
      → IsPlain u
      → IsJsonCodec J
      → (mark : TenantDeletionMark) (s : B.State)
      → let written = write_tenant_deletion_mark L B with_sse J bkt ctx u provider mark s in
        (written.0 ≡ ok tt)
        × ((tenant_deletion_mark_exists B bkt ctx u written.1).0 ≡ ok true)
        × ((read_tenant_deletion_mark B J bkt ctx u written.1).0 ≡ ok (some mark))
  unfolding write_tenant_deletion_mark tenant_deletion_mark_exists
  mark_written a k h codec mark s =
      let (t, marshalled, parse) = codec.round_trip mark in
      let stored = uploaded-view t s a k h in
      rw (marshalled, uploaded)
        (
          rw
              (lawful.upload-ok client ctx tenant_deletion_mark_path (bytes_reader t) s t (a, k)
                (inl refl))
              refl,
          R.exists-view bkt ctx (marker_file B u) (upload_mark t s).1 ∙ rw stored refl,
          (read_tenant_deletion_mark_lem B J V R bkt ctx u (upload_mark t s).1).1 t mark stored
              parse,
        )

  module _ (v : Str) where
    upload_mark-isolated :
        (t : Str) (s : B.State)
        → V.Accepts bkt
        → Succeeds (get_custom_s3_sse_config L (prefixed B) with_sse client)
        → IsPlain u
        → IsPlain v
        → u ≢ v
        → V.view bkt (upload_mark t s).1 (marker_file B v) ≡ V.view bkt s (marker_file B v)
    unfolding full_name
    upload_mark-isolated t s a k h l d =
        rw
          (
            marker_file-eq B v l,
            upload-Succeeds L (prefixed B) with_sse client ctx tenant_deletion_mark_path
                (bytes_reader t) s k,
          )
          (prefixed_isolated B V R bkt u v d h.lacks l.lacks _ tenant_deletion_mark_path t
            (bytes_reader t) s tenant_deletion_mark_path a (inl refl)).0

    -- Over a reliable store that accepts the tenant's uploads, for two tenants whose names are plain
    -- path components and differ: marking one of them does not change whether the other is marked.
    pub mark_isolated :
        V.Accepts bkt
        → Succeeds (get_custom_s3_sse_config L (prefixed B) with_sse client)
        → IsPlain u
        → IsPlain v
        → u ≢ v
        → (mark : TenantDeletionMark) (s : B.State)
        → (tenant_deletion_mark_exists B bkt ctx v
            (write_tenant_deletion_mark L B with_sse J bkt ctx u provider mark s).1).0
          ≡ (tenant_deletion_mark_exists B bkt ctx v s).0
    unfolding write_tenant_deletion_mark tenant_deletion_mark_exists
    mark_isolated a k h l d mark s = split (J.marshal mark)
      where
        split :
            (r : Result Str)
            → (B.exists bkt ctx (marker_file B v) (uploaded L B with_sse client ctx r s).1).0
              ≡ (B.exists bkt ctx (marker_file B v) s).0
        split (err e) = refl
        split (ok t) =
            (R.exists-view bkt ctx (marker_file B v) (upload_mark t s).1
              ∙ (ap (λ o. ok (is_some o)) (upload_mark-isolated t s a k h l d)
                  ∙ sym (R.exists-view bkt ctx (marker_file B v) s)))
