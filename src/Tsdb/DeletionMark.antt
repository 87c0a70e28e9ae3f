-- ===== src/Tsdb/DeletionMark.antt =====
-- pkg/storage/tsdb/tenant_deletion_mark.go: the mark of a tenant that is to be deleted.
pub mod Laws
use blockstorageingestor.Prelude.{
  ℤ, pos, negsuc, at_most, above, ℕ, zero, suc, ◌+◌, ◌-◌, ◌*◌, ◌/◌, ◌%◌, ◌^◌, ◌≤◌, ◌<◌, ◌≡◌, refl,
  sym, ap, ◌∙◌, ◌≢◌, ◌↔◌, ◌⊎◌, inl, inr, Bool, true, false, not, ◌&&◌, ◌||◌, Option, none, some,
  List, [], ◌∷◌, ◌++◌, map, append-nil, append_assoc, arith, ltb, leb, nat_beq, nat_beq_iff,
  if◌then◌else◌, Comparable, ◌==◌, nat_eq, Bool-cases, Option-cases, length, get_elem?, take, drop,
  length-append, contains, All, All-append, Lacks, select, get_elem?-append, Str, codes, str_beq,
  str_beq_iff, str_eq, str_beq_refl, str_beq-append,
}
use blockstorageingestor.Errors.{Error, Result, ok, err, wrapped, wrap}
use blockstorageingestor.Exec.{Exec, with_result}
use blockstorageingestor.Encoding.{Json}
use blockstorageingestor.Go.FilePath.{path_join}
use blockstorageingestor.Objstore.{Reader, ReadCloser, Bucket, bytes_reader}
use blockstorageingestor.Bucket.S3.Config.{Library}
use blockstorageingestor.Bucket.Sse.{TenantConfigProvider}
use blockstorageingestor.Bucket.User.{user_bucket, new_user_bucket_client}

-- Relative to the tenant's prefix.
abbrev pub tenant_deletion_mark_path : Str
tenant_deletion_mark_path = codes "markers/tenant-deletion-mark.json"

-- Unix times: when the mark was made, and when the cleanup was finished (0 before that).
pub record TenantDeletionMark : Type 0 where
  pub deletion_time : ℤ
  pub finished_time : ℤ

abbrev pub new_tenant_deletion_mark : ℤ → TenantDeletionMark
new_tenant_deletion_mark t = record { deletion_time = t; finished_time = pos 0 }

module _ (B : Bucket) where
  abbrev pub marker_file : Str → Str
  marker_file user_id = path_join (user_id ∷ tenant_deletion_mark_path ∷ [])

  unfoldable pub tenant_deletion_mark_exists : B.Self → B.Context → Str → Exec B.State Bool
  tenant_deletion_mark_exists bkt ctx user_id = B.exists bkt ctx (marker_file user_id)

  module _ (J : Json TenantDeletionMark) where
    decoded : Str → Result TenantDeletionMark → Result (Option TenantDeletionMark)
    decoded file (ok mark) = ok (some mark)
    decoded file (err e) = err (wrap e (codes "failed to decode deletion mark object: " ++ file))

    -- `nil` with no error is `ok none`. Whether the reader closes is only logged.
    fetched : B.Self → Str → Result ReadCloser → Result (Option TenantDeletionMark)
    unfolding decoded
    fetched bkt file (ok r) = decoded file (J.decode r.reader)
    fetched bkt file (err e) =
        if B.is_obj_not_found_err bkt (some e)
        then ok none
        else err (wrap e (codes "failed to read deletion mark object: " ++ file))

    unfoldable pub read_tenant_deletion_mark :
        B.Self → B.Context → Str → Exec B.State (Option TenantDeletionMark)
    unfolding fetched
    read_tenant_deletion_mark bkt ctx user_id =
        let file = marker_file user_id in with_result (fetched bkt file) (B.get bkt ctx file)

module _ (L : Library) (B : Bucket) (with_sse : B.Context → L.ServerSide → B.Context) where
  uploaded : (user_bucket L B with_sse).Self → B.Context → Result Str → Exec B.State (Unit {0})
  uploaded bkt ctx (err e) s = (err (wrap e (codes "serialize tenant deletion mark")), s)
  uploaded bkt ctx (ok text) s =
      with_result (λ r. wrapped r (codes "upload tenant deletion mark"))
        ((user_bucket L B with_sse).upload bkt ctx tenant_deletion_mark_path (bytes_reader text)) s

  unfoldable pub write_tenant_deletion_mark :
      Json TenantDeletionMark
      → B.Self
      → B.Context
      → Str
      → Option TenantConfigProvider
      → TenantDeletionMark
      → Exec B.State (Unit {0})
  unfolding uploaded
  write_tenant_deletion_mark J bkt ctx user_id cfg_provider mark =
      uploaded (new_user_bucket_client L B with_sse user_id bkt cfg_provider) ctx (J.marshal mark)
