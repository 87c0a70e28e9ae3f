-- ===== src/Tsdb/BucketIndex/Markers/Laws.antt =====
-- The path of a mark is read back as the block's identifier, by the reader of its kind alone.
use blockstorageingestor.Prelude.{
  ◌≡◌, sym, ◌≢◌, none, some, [], ◌∷◌, ◌++◌, arith, nat_eq, All-append, Lacks, Str, str_beq_iff,
  str_eq, str_beq_refl,
}
use blockstorageingestor.Go.Strings.{split_2}
use blockstorageingestor.Go.Strings.Laws.{split_2-append}
use blockstorageingestor.Go.FilePath.{slash}
use blockstorageingestor.Go.FilePath.Laws.{base-append}
use blockstorageingestor.Tsdb.BucketIndex.Markers.{
  BlockFormat, IsBlockFormat, dash, markers_pathname, mark_filepath, block_deletion_mark_filepath,
  no_compact_mark_filepath, block_of_parts, is_block_deletion_mark_filename,
  is_block_no_compact_mark_filename,
}

module _ (T : BlockFormat) (W : IsBlockFormat T) where
  Lacks-pathname : (id : T.ULID) → Lacks dash (markers_pathname ++ slash ∷ T.to_string id)
  Lacks-pathname id =
      All-append (λ c. c ≢ dash) (markers_pathname ++ slash ∷ []) (T.to_string id) (omega arith)
        (W.to_string-Lacks id)

  pub split-mark_filepath :
      (filename : Str) (id : T.ULID)
      → split_2 (mark_filepath T filename id) dash
        ≡ (markers_pathname ++ slash ∷ T.to_string id) ∷ filename ∷ []
  unfolding mark_filepath
  split-mark_filepath filename id =
      split_2-append dash (markers_pathname ++ slash ∷ T.to_string id) filename (Lacks-pathname id)

  block_of_parts-mark :
      (filename : Str) (id : T.ULID)
      → block_of_parts T filename (split_2 (mark_filepath T filename id) dash) ≡ some id
  unfolding block_of_parts
  block_of_parts-mark filename id =
      rw
        (
          split-mark_filepath filename id,
          block_of_parts,
          str_beq_refl filename,
          base-append markers_pathname (T.to_string id) (W.to_string-IsPlain id),
        )
        (W.parse-to_string id)

  block_of_parts-other :
      (f g : Str) (id : T.ULID)
      → f ≢ g
      → block_of_parts T f (split_2 (mark_filepath T g id) dash) ≡ none
  unfolding block_of_parts
  block_of_parts-other f g id h =
      rw (split-mark_filepath g id, block_of_parts) (ground (arith, str_beq_iff g f, h))

  -- For lawful identifiers and file names: each reader of mark names takes the global path of a
  -- mark of its own kind back to the block's identifier, and refuses that of the other kind.
  pub mark_filenames :
      (id : T.ULID)
      → (is_block_deletion_mark_filename T (block_deletion_mark_filepath T id) ≡ some id)
        × (is_block_no_compact_mark_filename T (no_compact_mark_filepath T id) ≡ some id)
        × (is_block_deletion_mark_filename T (no_compact_mark_filepath T id) ≡ none)
        × (is_block_no_compact_mark_filename T (block_deletion_mark_filepath T id) ≡ none)
  unfolding is_block_deletion_mark_filename is_block_no_compact_mark_filename
      block_deletion_mark_filepath no_compact_mark_filepath
  mark_filenames id = (
    block_of_parts-mark T.deletion_mark_filename id,
    block_of_parts-mark T.no_compact_mark_filename id,
    block_of_parts-other T.deletion_mark_filename T.no_compact_mark_filename id W.marks_differ,
    block_of_parts-other T.no_compact_mark_filename T.deletion_mark_filename id
        (λ e. W.marks_differ (sym e)),
  )
