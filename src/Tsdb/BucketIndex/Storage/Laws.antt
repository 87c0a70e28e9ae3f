-- ===== src/Tsdb/BucketIndex/Storage/Laws.antt =====
-- The index that is read is the one that was written.
use blockstorageingestor.Prelude.{
  ◌≡◌, refl, sym, ap, ◌∙◌, ◌⊎◌, inl, inr, Bool, true, Option, none, some, ◌∷◌, ◌++◌, nat_eq,
  Option-cases, Str, str_eq, str_beq_refl,
}
use blockstorageingestor.Errors.{Error, ok, err, sentinel, index_not_found, index_corrupted}
use blockstorageingestor.Encoding.{IsJsonCodec, IsGzipCodec}
use blockstorageingestor.Objstore.{Reader, ReadCloser, Bucket, bytes_buffer, dir_delim}
use blockstorageingestor.Objstore.Lawful.{Reading, IsReliable, IsFresh}
use blockstorageingestor.Bucket.S3.Config.{Library}
use blockstorageingestor.Bucket.S3.Config.Laws.{Succeeds}
use blockstorageingestor.Bucket.Sse
use blockstorageingestor.Bucket.Sse.{TenantConfigProvider, get_custom_s3_sse_config}
use blockstorageingestor.Bucket.Prefixed.{prefixed, full_name}
use blockstorageingestor.Bucket.User.{user_bucket, new_user_bucket_client}
use blockstorageingestor.Bucket.User.Laws.{user_reading, user_bucket-IsReliable}
use blockstorageingestor.Tsdb.BucketIndex.Storage.{
  IndexFormat, read_index, write_index, delete_index, encode, compress, store, fetched, deleted,
}

module _ (L : Library) (B : Bucket) (with_sse : B.Context → L.ServerSide → B.Context)
    (F : IndexFormat) (V : Reading B) (R : IsReliable B V) (bkt : B.Self) (ctx : B.Context)
    (user_id : Str) (provider : Option TenantConfigProvider) where
  abbrev client : (user_bucket L B with_sse).Self
  client = new_user_bucket_client L B with_sse user_id bkt provider

  abbrev UV : Reading (user_bucket L B with_sse)
  UV = user_reading L B with_sse V

  lawful : IsReliable (user_bucket L B with_sse) UV
  lawful = user_bucket-IsReliable L B with_sse V R

  -- the client that `read_index` reads with
  abbrev reading_client : (user_bucket L B with_sse).Self
  reading_client =
      Sse.with_expected_errs L (prefixed B) with_sse client
        ((user_bucket L B with_sse).is_obj_not_found_err client)

  as_reader : (Option Error → Bool) → (user_bucket L B with_sse).Self
  as_reader = Sse.with_expected_errs L (prefixed B) with_sse client

  reading-view : (s : B.State) (n : Str) → UV.view reading_client s n ≡ UV.view client s n
  unfolding as_reader
  reading-view s n = ap (λ v. v s n) (lawful.instrumented-same client as_reader _ refl).1

  reading-not_found :
      (x : Option Error)
      → (user_bucket L B with_sse).is_obj_not_found_err reading_client x
        ≡ (user_bucket L B with_sse).is_obj_not_found_err client x
  unfolding as_reader
  reading-not_found x = ap (λ v. v x) (lawful.instrumented-same client as_reader _ refl).3

  read_stored :
      (s : B.State) (z t : Str) (idx : F.Index)
      → UV.view client s F.index_compressed_filename ≡ some z
      → ((r : Reader) → IsFresh r z → (r' : Reader) × (F.gzip.new_reader r ≡ ok r') × IsFresh r' t)
      → ((r : Reader) → IsFresh r t → F.json.decode r ≡ ok idx)
      → (read_index F L B with_sse bkt ctx user_id provider s).0 ≡ ok idx
  unfolding read_index
  read_stored s z t idx e unzip parse =
      let (rc, got, fresh) =
        lawful.get_present reading_client ctx F.index_compressed_filename s z
          (reading-view s _ ∙ e) in
      let (r', zipped, fresh') = unzip rc.reader fresh in
      rw (got, fetched, zipped, parse r' fresh') refl

  read_missing :
      (s : B.State)
      → UV.view client s F.index_compressed_filename ≡ none
      → (read_index F L B with_sse bkt ctx user_id provider s).0 ≡ err (sentinel index_not_found)
  unfolding read_index
  read_missing s e =
      let (x, got, missing) =
        lawful.get_absent reading_client ctx F.index_compressed_filename s (reading-view s _ ∙ e) in
      rw (got, fetched, sym (reading-not_found (some x)) ∙ missing) refl

  uploaded-view :
      (z : Str) (s : B.State)
      → V.Accepts bkt
      → Succeeds (get_custom_s3_sse_config L (prefixed B) with_sse client)
      → UV.view client
          ((user_bucket L B with_sse).upload client ctx F.index_compressed_filename
            (bytes_buffer z)
            s).1
          F.index_compressed_filename
        ≡ some z
  uploaded-view z s a k =
      lawful.view-upload client ctx F.index_compressed_filename (bytes_buffer z) s z (a, k)
        (inr refl) F.index_compressed_filename
      ∙ rw (str_beq_refl F.index_compressed_filename) refl

  -- Over a reliable store that accepts the tenant's uploads, with lawful encodings: `WriteIndex`
  -- succeeds, and `ReadIndex` then returns the index that was written.
  pub read_index-write_index :
      V.Accepts bkt
      → Succeeds (get_custom_s3_sse_config L (prefixed B) with_sse client)
      → IsJsonCodec F.json
      → IsGzipCodec F.gzip
      → (idx : F.Index) (s : B.State)
      → let written = write_index F L B with_sse bkt ctx user_id provider idx s in
        (written.0 ≡ ok tt)
        × ((read_index F L B with_sse bkt ctx user_id provider written.1).0 ≡ ok idx)
  unfolding write_index
  read_index-write_index a k J G idx s =
      let (t, marshalled, parse) = J.round_trip idx in
      let (w, written, (z, closed, unzip)) = G.round_trip F.index_filename t in
      rw (marshalled, encode, written, compress, closed, store)
        (
          rw
              (lawful.upload-ok client ctx F.index_compressed_filename (bytes_buffer z) s z (a, k)
                (inr refl))
              refl,
          read_stored _ z t idx (uploaded-view z s a k) unzip parse,
        )

  deleted-view :
      (s : B.State)
      → UV.view client
          ((user_bucket L B with_sse).delete client ctx F.index_compressed_filename s).1
          F.index_compressed_filename
        ≡ none
  deleted-view s =
      lawful.view-delete client ctx F.index_compressed_filename s F.index_compressed_filename
      ∙ rw (str_beq_refl F.index_compressed_filename) refl

  delete_index-ok :
      (s : B.State) → (delete_index F L B with_sse bkt ctx user_id provider s).0 ≡ ok tt
  unfolding delete_index
  delete_index-ok s = elim (Option-cases (UV.view client s F.index_compressed_filename)) [
    | inl e ↦ absent (lawful.delete_absent client ctx F.index_compressed_filename s e)
    | inr (c, e) ↦
        rw (lawful.delete_present client ctx F.index_compressed_filename s c e, deleted) refl
  ]
    where
      absent :
          (((user_bucket L B with_sse).delete client ctx F.index_compressed_filename s).0 ≡ ok tt)
            ⊎ ((x : Error) × (((user_bucket L B with_sse).delete client ctx
                    F.index_compressed_filename s).0
                  ≡ err x)
                × ((user_bucket L B with_sse).is_obj_not_found_err client (some x) ≡ true))
          → (delete_index F L B with_sse bkt ctx user_id provider s).0 ≡ ok tt
      absent (inl e) = rw (e, deleted) refl
      absent (inr (x, e, missing)) = rw (e, deleted, missing) refl

  -- Over a reliable store `DeleteIndex` succeeds, also where there is no index, and `ReadIndex` then
  -- reports that the index is not found.
  pub read_index-delete_index :
      (s : B.State)
      → let gone = delete_index F L B with_sse bkt ctx user_id provider s in
        (gone.0 ≡ ok tt)
        × ((read_index F L B with_sse bkt ctx user_id provider gone.1).0
            ≡ err (sentinel index_not_found))
  unfolding delete_index
  read_index-delete_index s = (delete_index-ok s, read_missing _ (deleted-view s))

  -- An object in the index's place that is no gzip, or whose content is no index, is reported as
  -- corrupted.
  pub read_index_corrupted :
      (s : B.State) (z : Str)
      → V.view bkt s (user_id ++ dir_delim ∷ F.index_compressed_filename) ≡ some z
      → ((r : Reader)
          → IsFresh r z
          → ((e : Error) × (F.gzip.new_reader r ≡ err e))
            ⊎ ((r' : Reader) × (e : Error) × (F.gzip.new_reader r ≡ ok r')
                × (F.json.decode r' ≡ err e)))
      → (read_index F L B with_sse bkt ctx user_id provider s).0 ≡ err (sentinel index_corrupted)
  unfolding read_index full_name
  read_index_corrupted s z e bad =
      let (rc, got, fresh) =
        lawful.get_present reading_client ctx F.index_compressed_filename s z
          (reading-view s _ ∙ e) in
      corrupted rc got (bad rc.reader fresh)
    where
      corrupted :
          (rc : ReadCloser)
          → ((user_bucket L B with_sse).get reading_client ctx F.index_compressed_filename s).0
            ≡ ok rc
          → ((e : Error) × (F.gzip.new_reader rc.reader ≡ err e))
            ⊎ ((r' : Reader) × (e : Error) × (F.gzip.new_reader rc.reader ≡ ok r')
                × (F.json.decode r' ≡ err e))
          → (read_index F L B with_sse bkt ctx user_id provider s).0
            ≡ err (sentinel index_corrupted)
      corrupted rc got (inl (x, p)) = rw (got, fetched, p) refl
      corrupted rc got (inr (r', x, p, q)) = rw (got, fetched, p, q) refl
