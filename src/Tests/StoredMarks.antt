-- ===== src/Tests/StoredMarks.antt =====
-- The marks of a block that are put into the bucket in memory for a test.
use blockstorageingestor.Prelude.{
  pos, ◌≡◌, refl, inl, true, false, none, [], ◌∷◌, nat_eq, codes, str_eq,
}
use blockstorageingestor.Errors.{ok}
use blockstorageingestor.Objstore.Memory.{memory, memory_reading, memory-IsReliable}
use blockstorageingestor.Tsdb.BucketIndex.GlobalMarkers.{global_markers, global_markers_bucket}
use blockstorageingestor.Tsdb.TestBlocks.{
  passes, BlockMeta, DeletionMark, NoCompactMark, Library, mock_storage_deletion_mark,
  mock_storage_non_compaction_mark,
}
use blockstorageingestor.Tsdb.TestBlocks.Laws.{
  deletion_place, no_compact_place, Holds, mock_storage_marks,
}
use blockstorageingestor.Tests.Data.{
  alice, alice-IsPlain, block_format, block_format-IsBlockFormat, block_a,
}

-- Marks are written as one letter.
abbrev thanos : Library block_format
thanos = record {
  marshal_meta = λ m. ok (codes "m");
  marshal_deletion = λ m. ok (codes "d");
  marshal_no_compact = λ m. ok (codes "n");
  deletion_version = 1;
  no_compact_version = 1;
  out_of_order_chunks = codes "block-index-out-of-order-chunk";
  new_ulid = λ t. inl block_a;
  now = pos 160;
  a_minute_ago = pos 100;
}

abbrev meta : BlockMeta block_format
meta = record {
  version = 1;
  ulid = block_a;
  min_time = pos 0;
  max_time = pos 50;
  level = 1;
  sources = block_a ∷ [];
}

mock_storage_marks_example :
    let T = block_format in
    let W = block_format-IsBlockFormat in
    let G = global_markers_bucket T false memory in
    let b = global_markers true in
    let d = mock_storage_deletion_mark T G thanos b none alice meta [] in
    let n = mock_storage_non_compaction_mark T G thanos b none alice meta [] in
    ((mark : DeletionMark T) × (d.0 ≡ passes mark) × (mark.id ≡ block_a))
    × Holds T W false memory memory_reading memory-IsReliable thanos true none tt alice
        alice-IsPlain meta
        (deletion_place T W false memory memory_reading memory-IsReliable thanos true none tt alice
          alice-IsPlain meta)
        (codes "d")
        []
        d.1
    × ((mark : NoCompactMark T) × (n.0 ≡ passes mark) × (mark.id ≡ block_a))
    × Holds T W false memory memory_reading memory-IsReliable thanos true none tt alice
        alice-IsPlain meta
        (no_compact_place T W false memory memory_reading memory-IsReliable thanos true none tt
          alice alice-IsPlain meta)
        (codes "n")
        []
        n.1
mock_storage_marks_example =
    mock_storage_marks block_format block_format-IsBlockFormat false memory memory_reading
      memory-IsReliable thanos true none tt alice alice-IsPlain meta [] (codes "d") (codes "n") refl
      refl
