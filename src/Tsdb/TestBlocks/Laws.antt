-- ===== src/Tsdb/TestBlocks/Laws.antt =====
-- A mark that a test puts into a bucket is found where the program looks for it.
use blockstorageingestor.Prelude.{
  ◌≡◌, refl, inl, inr, Bool, ◌||◌, some, [], ◌∷◌, if◌then◌else◌, ◌==◌, nat_eq, Str, str_eq,
}
use blockstorageingestor.Errors.{ok}
use blockstorageingestor.Objstore.{Bucket, bytes_reader}
use blockstorageingestor.Objstore.Lawful.{Reading, IsReliable}
use blockstorageingestor.Go.Strings.{join}
use blockstorageingestor.Go.FilePath.Laws.{IsPlain}
use blockstorageingestor.Tsdb.BucketIndex.Markers.{BlockFormat, IsBlockFormat}
use blockstorageingestor.Tsdb.BucketIndex.GlobalMarkers.{global_markers, global_markers_bucket}
use blockstorageingestor.Tsdb.BucketIndex.GlobalMarkers.Copies.{upload_mark}
use blockstorageingestor.Tsdb.BucketIndex.GlobalMarkers.Places.{
  Mark, mark_place, copy_place, is_mark-mark_place,
}
use blockstorageingestor.Tsdb.TestBlocks.{
  passes, BlockMeta, DeletionMark, NoCompactMark, Library, place, uploaded, marked,
  mock_storage_deletion_mark, mock_storage_non_compaction_mark,
}

marked_lem :
    (T : BlockFormat) (B : Bucket) (L : Library T) (b : B.Self) (ctx : B.Context) {A : Type 0}
    (name : Str) (mark : A) (c : Str) (s : B.State)
    → (B.upload b ctx name (bytes_reader c) s).0 ≡ ok tt
    → marked T B L b ctx name mark (ok c) s
      ≡ (passes mark, (B.upload b ctx name (bytes_reader c) s).1)
unfolding marked uploaded
marked_lem T B L b ctx name mark c s fine = simp (marked, uploaded, fine)

module _ (T : BlockFormat) (W : IsBlockFormat T) (order : Bool) (B : Bucket) (V : Reading B)
    (R : IsReliable B V) (L : Library T) (b : B.Self) (ctx : B.Context) (a : V.Accepts b)
    (user : Str) (plain : IsPlain user) (meta : BlockMeta T) where
  abbrev pub deletion_place : Mark T W
  deletion_place = record {
    pre = user ∷ [];
    above = (plain, tt);
    id = meta.ulid;
    file = T.deletion_mark_filename;
    kind = inl refl;
  }

  abbrev pub no_compact_place : Mark T W
  no_compact_place = record {
    pre = user ∷ [];
    above = (plain, tt);
    id = meta.ulid;
    file = T.no_compact_mark_filename;
    kind = inr refl;
  }

  -- The mark at `p` and its copy hold the content, and no other object has changed.
  abbrev pub Holds : Mark T W → Str → B.State → B.State → Type 0
  Holds p c s t =
      (m : Str)
      → V.view b t m
        ≡ (if m == mark_place T W p || m == copy_place T W p then some c else V.view b s m)

  marked-Holds :
      {A : Type 0} (p : Mark T W) (mark : A) (c : Str) (s : B.State)
      → let done =
          marked T
            (global_markers_bucket T order B)
            L
            (global_markers b)
            ctx
            (mark_place T W p)
            mark
            (ok c)
            s in
        (done.0 ≡ passes mark) × Holds p c s done.1
  marked-Holds p mark c s =
      let (fine, seen) =
        upload_mark T order B b ctx (mark_place T W p) V R (copy_place T W p)
          (is_mark-mark_place T W order p) (bytes_reader c) c s a (inl refl) in
      rw
        (marked_lem T (global_markers_bucket T order B) L (global_markers b) ctx (mark_place T W p)
          mark c s fine)
        (refl, seen)

  -- Over a reliable store that accepts uploads, through the client that keeps global copies, for a
  -- tenant whose name is plain and marks that can be marshalled: both helpers return the mark that
  -- they wrote, and it is stored as the mark of the block and as its global copy, and no other
  -- object has changed.
  pub mock_storage_marks :
      (s : B.State) (c d : Str)
      → L.marshal_deletion
          (record { id = meta.ulid; deletion_time = L.a_minute_ago; version = L.deletion_version })
        ≡ ok c
      → L.marshal_no_compact (record {
        id = meta.ulid;
        version = L.no_compact_version;
        no_compact_time = L.now;
        reason = L.out_of_order_chunks;
      })
        ≡ ok d
      → let G = global_markers_bucket T order B in
        let deletion = mock_storage_deletion_mark T G L (global_markers b) ctx user meta s in
        let no_compact =
          mock_storage_non_compaction_mark T G L (global_markers b) ctx user meta s in
        ((mark : DeletionMark T) × (deletion.0 ≡ passes mark) × (mark.id ≡ meta.ulid))
        × Holds deletion_place c s deletion.1
        × ((mark : NoCompactMark T) × (no_compact.0 ≡ passes mark) × (mark.id ≡ meta.ulid))
        × Holds no_compact_place d s no_compact.1
  unfolding mock_storage_deletion_mark mock_storage_non_compaction_mark place join
  mock_storage_marks s c d e f =
      let (p, x) =
        marked-Holds deletion_place
          (record { id = meta.ulid; deletion_time = L.a_minute_ago; version = L.deletion_version })
          c s in
      let (q, y) =
        marked-Holds no_compact_place
          (record {
            id = meta.ulid;
            version = L.no_compact_version;
            no_compact_time = L.now;
            reason = L.out_of_order_chunks;
          })
          d s in
      rw (e, f) ((_, p, refl), x, (_, q, refl), y)
