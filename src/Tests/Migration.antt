-- ===== src/Tests/Migration.antt =====
-- A tenant with a block that is marked, and the migration of the mark.
use blockstorageingestor.Prelude.{
  ◌≡◌, refl, inl, Bool, true, false, Option, none, some, [], ◌∷◌, if◌then◌else◌, nat_eq, contains,
  Str, codes, str_beq, str_eq,
}
use blockstorageingestor.Errors.{ok, foreign}
use blockstorageingestor.Go.FilePath.{base}
use blockstorageingestor.Go.Strings.{has_prefix, trim_prefix}
use blockstorageingestor.Objstore.{ReadCloser}
use blockstorageingestor.Bucket.Sse
use blockstorageingestor.Bucket.Prefixed
use blockstorageingestor.Objstore.Listing.{as_dir}
use blockstorageingestor.Objstore.Memory.{
  Objects, memory, memory_reading, memory-IsReliable, listed, fetched,
}
use blockstorageingestor.Bucket.S3.Config.Laws.{Succeeds}
use blockstorageingestor.Bucket.Prefixed.{full_name, prefixed}
use blockstorageingestor.Bucket.Sse.{get_custom_s3_sse_config}
use blockstorageingestor.Bucket.User.{user_bucket, new_user_bucket_client}
use blockstorageingestor.Bucket.User.Laws.{user_reading}
use blockstorageingestor.Tsdb.BucketIndex.Markers.{mark_filepath}
use blockstorageingestor.Tsdb.BucketIndex.Migration.{
  migration_client, migrate_block_deletion_marks_to_global_location,
}
use blockstorageingestor.Tsdb.BucketIndex.Migration.Copies.{or_keep}
use blockstorageingestor.Tsdb.BucketIndex.Migration.Laws.{Closes, mark_path}
use blockstorageingestor.Tsdb.BucketIndex.Migration.Paths.{markers_dir}
use blockstorageingestor.Tsdb.BucketIndex.Migration.Tenant.{migrate_lem}
use blockstorageingestor.Tests.Data.{
  alice, library, with_sse, block_format, block_format-IsBlockFormat, Block, block_a, parse_block,
  no_markers,
}

abbrev marked : Objects
marked = (codes "alice/01A/deletion-mark.json", codes "m") ∷ []

abbrev client : (user_bucket library memory with_sse).Self
client = migration_client block_format library memory with_sse true alice none

fetched-close : (o : Option Str) (r : ReadCloser) → fetched o ≡ ok r → r.close ≡ ok tt
unfolding fetched
fetched-close none r h = let no : ⊥ = cc in elim no [ ]
fetched-close (some c) r h = cc (h)

client-Closes :
    (n : Str) (t : Objects) → Closes (user_bucket library memory with_sse) none client n t
unfolding Sse.get Prefixed.get
client-Closes n t r h = fetched-close _ r h

plain_client : Succeeds (
    get_custom_s3_sse_config library
      (prefixed memory)
      with_sse
      (new_user_bucket_client library memory with_sse alice true none))
unfolding get_custom_s3_sse_config
plain_client = tt

client-lists :
    contains
      ((user_reading library memory with_sse memory_reading).entries client marked [])
      (codes "01A/")
    ≡ true
unfolding Sse.with_expected_errs Prefixed.with_expected_errs full_name as_dir listed trim_prefix
    str_beq
client-lists = refl

block_a-dir : block_format.is_block_dir (codes "01A/") ≡ some block_a
unfolding parse_block base str_beq
block_a-dir = refl

abbrev unmarked_order : Block → Bool
unmarked_order id = false

migrate_lem_example :
    let seen = (user_reading library memory with_sse memory_reading).view client in
    let out =
      migrate_block_deletion_marks_to_global_location block_format library memory with_sse
        (λ es. foreign 0)
        unmarked_order
        none
        true
        alice
        none
        marked in
    (out.0 ≡ ok tt)
    × (seen out.1 (mark_filepath block_format (codes "deletion-mark.json") block_a)
        ≡ or_keep
            (seen marked (mark_path block_format block_a (codes "deletion-mark.json")))
            (seen marked (mark_filepath block_format (codes "deletion-mark.json") block_a)))
    × ((m : Str)
        → seen out.1 m ≡ (if has_prefix m markers_dir then seen out.1 m else seen marked m))
migrate_lem_example =
    migrate_lem block_format block_format-IsBlockFormat no_markers library memory with_sse
      memory_reading memory-IsReliable (λ es. foreign 0) unmarked_order none true alice none marked
      block_a (codes "deletion-mark.json") (codes "01A/") (tt, plain_client) client-Closes
      (inl refl) client-lists block_a-dir
