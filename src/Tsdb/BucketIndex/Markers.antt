-- ===== src/Tsdb/BucketIndex/Markers.antt =====
-- pkg/storage/tsdb/bucketindex/markers.go: where the marks of blocks are kept.
pub mod Laws
use blockstorageingestor.Prelude.{
  ℤ, pos, negsuc, at_most, above, ℕ, zero, suc, ◌+◌, ◌-◌, ◌*◌, ◌/◌, ◌%◌, ◌^◌, ◌≤◌, ◌<◌, ◌≡◌, refl,
  sym, ap, ◌∙◌, ◌≢◌, ◌↔◌, ◌⊎◌, inl, inr, Bool, true, false, not, ◌&&◌, ◌||◌, Option, none, some,
  List, [], ◌∷◌, ◌++◌, map, append-nil, append_assoc, arith, ltb, leb, nat_beq, nat_beq_iff,
  if◌then◌else◌, Comparable, ◌==◌, nat_eq, Bool-cases, Option-cases, length, get_elem?, take, drop,
  length-append, contains, All, All-append, Lacks, select, get_elem?-append, Str, codes, str_beq,
  str_beq_iff, str_eq, str_beq_refl, str_beq-append,
}
use blockstorageingestor.Go.Strings.{split_2}
use blockstorageingestor.Go.FilePath.{slash, base}
use blockstorageingestor.Go.FilePath.Laws.{IsPlain}

-- The packages `ulid`, and `block` and `block/metadata` of Thanos. `parse` is `ulid.Parse`,
-- `is_block_dir` is `block.IsBlockDir`, with `none` for their failures.
pub record BlockFormat : Type 1 where
  pub ULID : Type 0
  pub to_string : ULID → Str
  pub parse : Str → Option ULID
  pub is_block_dir : Str → Option ULID
  pub deletion_mark_filename : Str
  pub no_compact_mark_filename : Str

abbrev pub dash : ℕ
dash = b'-'

-- Block identifiers are written in letters and digits, and are read back; a block's directory is
-- named by its identifier; the two kinds of marks have different file names.
pub record IsBlockFormat (T : BlockFormat) : Type 0 where
  pub parse-to_string : (id : T.ULID) → T.parse (T.to_string id) ≡ some id
  pub to_string-IsPlain : (id : T.ULID) → IsPlain (T.to_string id)
  pub to_string-Lacks : (id : T.ULID) → Lacks dash (T.to_string id)
  pub is_block_dir-base : (p : Str) → T.is_block_dir p ≡ T.parse (base p)
  pub deletion_mark-IsPlain : IsPlain T.deletion_mark_filename
  pub no_compact_mark-IsPlain : IsPlain T.no_compact_mark_filename
  pub marks_differ : T.deletion_mark_filename ≢ T.no_compact_mark_filename

abbrev pub markers_pathname : Str
markers_pathname = codes "markers"

module _ (T : BlockFormat) where
  -- `fmt.Sprintf("%s/%s-%s", MarkersPathname, blockID.String(), filename)`
  unfoldable pub mark_filepath : Str → T.ULID → Str
  mark_filepath filename id = markers_pathname ++ slash ∷ (T.to_string id ++ dash ∷ filename)

  unfoldable pub block_deletion_mark_filepath : T.ULID → Str
  unfolding mark_filepath
  block_deletion_mark_filepath = mark_filepath T.deletion_mark_filename

  unfoldable pub no_compact_mark_filepath : T.ULID → Str
  unfolding mark_filepath
  no_compact_mark_filepath = mark_filepath T.no_compact_mark_filename

  -- `MarkersMap`, in the order of the source or in the other one: the order in which Go walks a
  -- map is not determined.
  abbrev pub markers_map : Bool → List (Str × (T.ULID → Str))
  markers_map false =
      (T.deletion_mark_filename, block_deletion_mark_filepath)
      ∷ (T.no_compact_mark_filename, no_compact_mark_filepath)
      ∷ []
  markers_map true =
      (T.no_compact_mark_filename, no_compact_mark_filepath)
      ∷ (T.deletion_mark_filename, block_deletion_mark_filepath)
      ∷ []

  -- the tests on the parts of `strings.SplitN(name, "-", 2)`
  block_of_parts : Str → List Str → Option T.ULID
  block_of_parts filename (part ∷ rest ∷ []) =
      if not (rest == filename) then none else T.parse (base part)
  block_of_parts filename _ = none

  unfoldable pub is_block_deletion_mark_filename : Str → Option T.ULID
  unfolding block_of_parts
  is_block_deletion_mark_filename name = block_of_parts T.deletion_mark_filename (split_2 name dash)

  unfoldable pub is_block_no_compact_mark_filename : Str → Option T.ULID
  unfolding block_of_parts
  is_block_no_compact_mark_filename name =
      block_of_parts T.no_compact_mark_filename (split_2 name dash)
