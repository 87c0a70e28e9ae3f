-- ===== src/Tsdb/BucketIndex/Migration.antt =====
-- pkg/storage/tsdb/bucketindex/markers.go: the migration of the marks of blocks to the place where
-- all marks of a tenant are kept.
pub mod Copies
pub mod Laws
pub mod Paths
pub mod Tenant
use blockstorageingestor.Prelude.{
  ℤ, pos, negsuc, at_most, above, ℕ, zero, suc, ◌+◌, ◌-◌, ◌*◌, ◌/◌, ◌%◌, ◌^◌, ◌≤◌, ◌<◌, ◌≡◌, refl,
  sym, ap, ◌∙◌, ◌≢◌, ◌↔◌, ◌⊎◌, inl, inr, Bool, true, false, not, ◌&&◌, ◌||◌, Option, none, some,
  List, [], ◌∷◌, ◌++◌, map, append-nil, append_assoc, arith, ltb, leb, nat_beq, nat_beq_iff,
  if◌then◌else◌, Comparable, ◌==◌, nat_eq, Bool-cases, Option-cases, length, get_elem?, take, drop,
  length-append, contains, All, All-append, Lacks, select, get_elem?-append, Str, codes, str_beq,
  str_beq_iff, str_eq, str_beq_refl, str_beq-append,
}
use blockstorageingestor.Errors.{Error, Result, ok, err, error_of, wrapped}
use blockstorageingestor.Exec.{Exec}
use blockstorageingestor.Go.FilePath.{path_join}
use blockstorageingestor.Objstore.{ReadCloser, Bucket}
use blockstorageingestor.Bucket.Sse.{TenantConfigProvider, with_expected_errs}
use blockstorageingestor.Bucket.Prefixed.{prefixed}
use blockstorageingestor.Bucket.S3.Config.{Library}
use blockstorageingestor.Bucket.User.{user_bucket, new_user_bucket_client}
use blockstorageingestor.Tsdb.BucketIndex.Markers.{BlockFormat, markers_map}

-- `errs.Add`, which leaves a nil error out
abbrev pub add_err {ℓ} : {A : Type ℓ} → List Error → Result A → List Error
add_err errs (ok a) = errs
add_err errs (err e) = errs ++ e ∷ []

-- `errs.Err` of the errors of Prometheus: nil if there are none, else `multi` of them
abbrev pub err_of : (List Error → Error) → List Error → Result (Unit {0})
err_of multi [] = ok tt
err_of multi (e ∷ errs) = err (multi (e ∷ errs))

module _ (T : BlockFormat) where
  abbrev pub add_block : List T.ULID → Option T.ULID → List T.ULID
  add_block blocks none = blocks
  add_block blocks (some id) = blocks ++ id ∷ []

  module _ (U : Bucket) (u : U.Self) (ctx : U.Context) where
    -- the callback of the listing
    abbrev pub find_block : Str → Exec (U.State × List T.ULID) (Unit {0})
    find_block name (s, blocks) = (ok tt, (s, add_block blocks (T.is_block_dir name)))

    -- the copy of a mark whose content has been opened, or could not be
    abbrev pub copy_opened : Str → Result ReadCloser → U.State × List Error → U.State × List Error
    copy_opened dst (err e) (s, errs) =
        if U.is_obj_not_found_err u (some e) then (s, errs) else (s, errs ++ e ∷ [])
    copy_opened dst (ok reader) (s, errs) =
        if U.is_obj_not_found_err u none
        then (s, errs)
        else (let (r, t) = U.upload u ctx dst reader.reader s in
            (t, add_err (add_err errs reader.close) r))

    -- one mark of a block, from `src` to `dst`
    unfoldable pub copy_mark : Str → Str → U.State × List Error → U.State × List Error
    copy_mark src dst (s, errs) = let (r, t) = U.get u ctx src s in copy_opened dst r (t, errs)

    unfoldable pub copy_marks :
        T.ULID → List (Str × (T.ULID → Str)) → U.State × List Error → U.State × List Error
    unfolding copy_mark
    copy_marks id [] x = x
    copy_marks id ((mark, file) ∷ marks) x =
        copy_marks id marks (copy_mark (path_join (T.to_string id ∷ mark ∷ [])) (file id) x)

    -- the loop over the blocks, for each of which the map of marks is walked in some order
    unfoldable pub copy_blocks :
        (T.ULID → Bool) → List T.ULID → U.State × List Error → U.State × List Error
    unfolding copy_marks
    copy_blocks order [] x = x
    copy_blocks order (id ∷ blocks) x =
        copy_blocks order blocks (copy_marks id (markers_map T (order id)) x)

    abbrev pub copied :
        (List Error → Error)
        → (T.ULID → Bool)
        → Result (Unit {0}) × (U.State × List T.ULID)
        → Result (Unit {0}) × U.State
    copied multi order (err e, (s, blocks)) = (wrapped (err e) (codes "list blocks"), s)
    copied multi order (ok v, (s, blocks)) =
        let (t, errs) = copy_blocks order blocks (s, []) in (err_of multi errs, t)

    unfoldable pub migrate : (List Error → Error) → (T.ULID → Bool) → Exec U.State (Unit {0})
    unfolding copy_blocks
    migrate multi order s = copied multi order (U.iter u (List T.ULID) ctx [] find_block [] (s, []))

  module _ (L : Library) (B : Bucket) (with_sse : B.Context → L.ServerSide → B.Context) where
    -- The client of the tenant, for which a missing object is an expected error.
    abbrev pub migration_client :
        B.Self → Str → Option TenantConfigProvider → (user_bucket L B with_sse).Self
    migration_client bkt user_id cfg_provider =
        let bucket = new_user_bucket_client L B with_sse user_id bkt cfg_provider in
        with_expected_errs L (prefixed B) with_sse bucket
          ((user_bucket L B with_sse).is_obj_not_found_err bucket)

    unfoldable pub migrate_block_deletion_marks_to_global_location :
        (List Error → Error)
        → (T.ULID → Bool)
        → B.Context
        → B.Self
        → Str
        → Option TenantConfigProvider
        → Exec B.State (Unit {0})
    unfolding migrate
    migrate_block_deletion_marks_to_global_location multi order ctx bkt user_id cfg_provider =
        migrate (user_bucket L B with_sse) (migration_client bkt user_id cfg_provider) ctx multi
          order
