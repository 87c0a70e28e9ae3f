-- ===== src/Tsdb/BucketIndex/Storage.antt =====
-- pkg/storage/tsdb/bucketindex/storage.go: the index of a tenant's blocks, kept as compressed JSON.
pub mod Laws
use blockstorageingestor.Prelude.{
  ℤ, pos, negsuc, at_most, above, ℕ, zero, suc, ◌+◌, ◌-◌, ◌*◌, ◌/◌, ◌%◌, ◌^◌, ◌≤◌, ◌<◌, ◌≡◌, refl,
  sym, ap, ◌∙◌, ◌≢◌, ◌↔◌, ◌⊎◌, inl, inr, Bool, true, false, not, ◌&&◌, ◌||◌, Option, none, some,
  List, [], ◌∷◌, ◌++◌, map, append-nil, append_assoc, arith, ltb, leb, nat_beq, nat_beq_iff,
  if◌then◌else◌, Comparable, ◌==◌, nat_eq, Bool-cases, Option-cases, length, get_elem?, take, drop,
  length-append, contains, All, All-append, Lacks, select, get_elem?-append, Str, codes, str_beq,
  str_beq_iff, str_eq, str_beq_refl, str_beq-append,
}
use blockstorageingestor.Errors.{
  Error, Result, ok, err, wrapped, wrap, sentinel, index_not_found, index_corrupted,
}
use blockstorageingestor.Exec.{Exec, with_result}
use blockstorageingestor.Encoding.{Json, Gzip}
use blockstorageingestor.Objstore.{Reader, ReadCloser, Bucket, bytes_buffer}
use blockstorageingestor.Bucket.S3.Config.{Library}
use blockstorageingestor.Bucket.Sse
use blockstorageingestor.Bucket.Sse.{TenantConfigProvider}
use blockstorageingestor.Bucket.User.{user_bucket, new_user_bucket_client}
use blockstorageingestor.Bucket.Prefixed.{prefixed}

-- The index and the names of its object, which the empty index.go of the repository leaves out.
pub record IndexFormat : Type 1 where
  pub Index : Type 0
  pub json : Json Index
  pub gzip : Gzip
  pub index_filename : Str
  pub index_compressed_filename : Str

module _ (F : IndexFormat) (L : Library) (B : Bucket)
    (with_sse : B.Context → L.ServerSide → B.Context) where
  abbrev pub Client : Type 0
  Client = (user_bucket L B with_sse).Self

  -- The error of the decoder is replaced.
  decoded : Result F.Index → Result F.Index
  decoded (ok idx) = ok idx
  decoded (err e) = err (sentinel index_corrupted)

  decompressed : Result Reader → Result F.Index
  unfolding decoded
  decompressed (ok r) = decoded (F.json.decode r)
  decompressed (err e) = err (sentinel index_corrupted)

  fetched : Client → Result ReadCloser → Result F.Index
  unfolding decompressed
  fetched user_bkt (ok r) = decompressed (F.gzip.new_reader r.reader)
  fetched user_bkt (err e) =
      if (user_bucket L B with_sse).is_obj_not_found_err user_bkt (some e)
      then err (sentinel index_not_found)
      else err (wrap e (codes "read bucket index"))

  -- The two readers are closed when the function returns, and a failure of that is only logged.
  unfoldable pub read_index :
      B.Self → B.Context → Str → Option TenantConfigProvider → Exec B.State F.Index
  unfolding fetched
  read_index bkt ctx user_id cfg_provider =
      let user_bkt = new_user_bucket_client L B with_sse user_id bkt cfg_provider in
      let reading =
        Sse.with_expected_errs L (prefixed B) with_sse user_bkt
          ((user_bucket L B with_sse).is_obj_not_found_err user_bkt) in
      with_result (fetched user_bkt)
        ((user_bucket L B with_sse).get reading ctx F.index_compressed_filename)

  store : Client → B.Context → Result Str → Exec B.State (Unit {0})
  store bkt ctx (err e) s = (err (wrap e (codes "close gzip bucket index")), s)
  store bkt ctx (ok z) s =
      with_result (λ r. wrapped r (codes "upload bucket index"))
        ((user_bucket L B with_sse).upload bkt ctx F.index_compressed_filename (bytes_buffer z)) s

  compress : Client → B.Context → Result F.gzip.Writer → Exec B.State (Unit {0})
  unfolding store
  compress bkt ctx (err e) s = (err (wrap e (codes "gzip bucket index")), s)
  compress bkt ctx (ok w) s = store bkt ctx (F.gzip.close w) s

  encode : Client → B.Context → Result Str → Exec B.State (Unit {0})
  unfolding compress
  encode bkt ctx (err e) s = (err (wrap e (codes "marshal bucket index")), s)
  encode bkt ctx (ok content) s =
      compress bkt ctx (F.gzip.write (F.gzip.with_name F.gzip.new_writer F.index_filename) content)
        s

  unfoldable pub write_index :
      B.Self → B.Context → Str → Option TenantConfigProvider → F.Index → Exec B.State (Unit {0})
  unfolding encode
  write_index bkt ctx user_id cfg_provider idx =
      encode (new_user_bucket_client L B with_sse user_id bkt cfg_provider) ctx (F.json.marshal idx)

  deleted : Client → Result (Unit {0}) → Result (Unit {0})
  deleted bkt (ok u) = ok u
  deleted bkt (err e) =
      if (user_bucket L B with_sse).is_obj_not_found_err bkt (some e)
      then ok tt
      else err (wrap e (codes "delete bucket index"))

  -- No error is returned if the index does not exist.
  unfoldable pub delete_index :
      B.Self → B.Context → Str → Option TenantConfigProvider → Exec B.State (Unit {0})
  unfolding deleted
  delete_index bkt ctx user_id cfg_provider =
      let user_bkt = new_user_bucket_client L B with_sse user_id bkt cfg_provider in
      with_result (deleted user_bkt)
        ((user_bucket L B with_sse).delete user_bkt ctx F.index_compressed_filename)
