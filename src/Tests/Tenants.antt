-- ===== src/Tests/Tenants.antt =====
-- Two tenants of the bucket in memory: their marks, their indexes, and the scan for them.
use blockstorageingestor.Prelude.{
  ℤ, pos, negsuc, at_most, above, ℕ, zero, suc, ◌+◌, ◌-◌, ◌*◌, ◌/◌, ◌%◌, ◌^◌, ◌≤◌, ◌<◌, ◌≡◌, refl,
  sym, ap, ◌∙◌, ◌≢◌, ◌↔◌, ◌⊎◌, inl, inr, Bool, true, false, not, ◌&&◌, ◌||◌, Option, none, some,
  List, [], ◌∷◌, ◌++◌, map, append-nil, append_assoc, arith, ltb, leb, nat_beq, nat_beq_iff,
  if◌then◌else◌, Comparable, ◌==◌, nat_eq, Bool-cases, Option-cases, length, get_elem?, take, drop,
  length-append, contains, All, All-append, Lacks, select, get_elem?-append, Str, codes, str_beq,
  str_beq_iff, str_eq, str_beq_refl, str_beq-append,
}
use blockstorageingestor.Errors.{Error, Result, ok, err, sentinel, index_corrupted, foreign}
use blockstorageingestor.Encoding.{Json, IsJsonCodec}
use blockstorageingestor.Go.Strings.{trim_suffix_byte}
use blockstorageingestor.Objstore.Lawful.{is_some}
use blockstorageingestor.Objstore.Listing.{as_dir}
use blockstorageingestor.Objstore.Memory.{memory, memory_reading, memory-IsReliable, lookup, listed}
use blockstorageingestor.Bucket.S3.Config.Laws.{Succeeds}
use blockstorageingestor.Bucket.Prefixed.{prefixed}
use blockstorageingestor.Bucket.Sse.{get_custom_s3_sse_config}
use blockstorageingestor.Bucket.User.{new_user_bucket_client}
use blockstorageingestor.Tsdb.DeletionMark.{
  TenantDeletionMark, new_tenant_deletion_mark, marker_file, read_tenant_deletion_mark,
  write_tenant_deletion_mark, tenant_deletion_mark_exists,
}
use blockstorageingestor.Tsdb.DeletionMark.Laws.{mark_written}
use blockstorageingestor.Tsdb.BucketIndex.Storage.{IndexFormat, read_index, write_index}
use blockstorageingestor.Tsdb.BucketIndex.Storage.Laws.{
  read_index-write_index, read_index_corrupted,
}
use blockstorageingestor.Tsdb.UsersScanner.{UsersScanner, scan_users, all_users}
use blockstorageingestor.Tsdb.UsersScanner.Partition.{
  verdicts, users_with, is_kept, is_marked, listing, scan_users_partition,
}
use blockstorageingestor.Tsdb.UsersScanner.Laws.{scan_users-reliable}
use blockstorageingestor.Tests.Data.{
  library, with_sse, provider, alice, alice-IsPlain, text_json, text_json-IsJsonCodec,
  stored_gzip-IsGzipCodec, index_format, IsFresh-unread_text,
}

-- A mark written as the tally of its first time.
abbrev tally : ℤ → Str
tally (pos n) = n ∷ 0 ∷ []
tally (negsuc n) = n ∷ 1 ∷ []

abbrev tallied : Str → ℤ
tallied (n ∷ s ∷ _) = if nat_beq s 0 then pos n else negsuc n
tallied _ = pos 0

abbrev untold : Result Str → Result TenantDeletionMark
untold (ok s) =
    ok (record { deletion_time = tallied (take 2 s); finished_time = tallied (drop 2 s) })
untold (err e) = err e

abbrev mark_json : Json TenantDeletionMark
mark_json = record {
  marshal = λ m. ok (tally m.deletion_time ++ tally m.finished_time);
  decode = λ r. untold r.unread;
}

untold-tally :
    (a b : ℤ)
    → untold (ok (tally a ++ tally b)) ≡ ok (record { deletion_time = a; finished_time = b })
untold-tally (pos a) (pos b) = refl
untold-tally (pos a) (negsuc b) = refl
untold-tally (negsuc a) (pos b) = refl
untold-tally (negsuc a) (negsuc b) = refl

mark_json-IsJsonCodec : IsJsonCodec mark_json
mark_json-IsJsonCodec = record {
  round_trip = λ m. (
    tally m.deletion_time ++ tally m.finished_time,
    refl,
    λ r f. ap untold (IsFresh-unread_text r _ f) ∙ untold-tally m.deletion_time m.finished_time,
  );
}

abbrev mark : TenantDeletionMark
mark = new_tenant_deletion_mark (pos 7)

encrypted : Succeeds (
    get_custom_s3_sse_config library
      (prefixed memory)
      with_sse
      (new_user_bucket_client library memory with_sse alice true (some provider)))
unfolding get_custom_s3_sse_config blockstorageingestor.Bucket.S3.Config.build_minio_config
    blockstorageingestor.Bucket.S3.Config.parse_kms_encryption_context
    blockstorageingestor.Prelude.str_beq
encrypted = tt

mark_written_example :
    let written =
      write_tenant_deletion_mark library memory with_sse mark_json true none alice
        (some provider)
        mark
        [] in
    (written.0 ≡ ok tt)
    × ((tenant_deletion_mark_exists memory true none alice written.1).0 ≡ ok true)
    × ((read_tenant_deletion_mark memory mark_json true none alice written.1).0 ≡ ok (some mark))
mark_written_example =
    mark_written library memory with_sse mark_json memory_reading memory-IsReliable true none alice
      (some provider) tt encrypted alice-IsPlain mark_json-IsJsonCodec mark []

read_index-write_index_example :
    let written =
      write_index index_format library memory with_sse true none alice
        (some provider)
        (codes "i")
        [] in
    (written.0 ≡ ok tt)
    × ((read_index index_format library memory with_sse true none alice (some provider) written.1).0
        ≡ ok (codes "i"))
read_index-write_index_example =
    read_index-write_index library memory with_sse index_format memory_reading memory-IsReliable
      true none alice (some provider) tt encrypted text_json-IsJsonCodec stored_gzip-IsGzipCodec
      (codes "i") []

-- A format whose files all fail to open.
abbrev broken_format : IndexFormat
broken_format = record {
  Index = Str;
  json = text_json;
  gzip = record {
    Writer = Str;
    new_writer = [];
    with_name = λ w n. w;
    write = λ w t. ok t;
    close = λ w. ok w;
    new_reader = λ r. err (foreign 7);
  };
  index_filename = codes "i";
  index_compressed_filename = codes "i.gz";
}

abbrev spoiled : memory.State
spoiled = (codes "alice/i.gz", codes "?") ∷ []

spoiled-view : lookup spoiled (codes "alice/i.gz") ≡ some (codes "?")
unfolding lookup blockstorageingestor.Prelude.str_beq
spoiled-view = refl

read_index_corrupted_example :
    (read_index broken_format library memory with_sse true none alice (some provider) spoiled).0
    ≡ err (sentinel index_corrupted)
read_index_corrupted_example =
    read_index_corrupted library memory with_sse broken_format memory_reading memory-IsReliable true
      none alice (some provider) spoiled (codes "?") spoiled-view (λ r f. inl (foreign 7, refl))

abbrev scanner : UsersScanner memory
scanner = record { bucket_client = true; is_owned = all_users }

scan_users_partition_example :
    ((e : Error)
      → (listing memory scanner none spoiled).0 ≡ err e
      → scan_users memory scanner none spoiled ≡ (err e, (listing memory scanner none spoiled).1.0))
    × ((listing memory scanner none spoiled).0 ≡ ok tt
        → scan_users memory scanner none spoiled ≡ (
            let (vs, t) =
              verdicts memory scanner none
                (listing memory scanner none spoiled).1.1
                (listing memory scanner none spoiled).1.0 in
            (
              ok (
                users_with memory scanner none is_kept vs,
                users_with memory scanner none is_marked vs,
              ),
              t,
            )))
scan_users_partition_example = scan_users_partition memory scanner none spoiled

scan_users-reliable_example :
    let users = map (λ e. trim_suffix_byte e b'/') (listed spoiled (as_dir [])) in
    let has_mark = λ (u : Str). is_some (lookup spoiled (marker_file memory u)) in
    (scan_users memory scanner none spoiled).0
    ≡ ok (select (λ u. true && not (has_mark u)) users, select (λ u. true && has_mark u) users)
scan_users-reliable_example =
    scan_users-reliable memory memory_reading memory-IsReliable scanner none (λ u. ok true)
      (λ u s. refl) spoiled
