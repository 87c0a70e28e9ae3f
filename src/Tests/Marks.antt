-- ===== src/Tests/Marks.antt =====
-- The marks of two blocks, and their copies in the bucket in memory.
use blockstorageingestor.Prelude.{
  ◌≡◌, refl, inl, true, false, ◌||◌, none, some, [], ◌∷◌, if◌then◌else◌, ◌==◌, nat_eq, Str, codes,
  str_beq, str_eq,
}
use blockstorageingestor.Errors.{ok}
use blockstorageingestor.Go.Strings.{join}
use blockstorageingestor.Go.FilePath.{base}
use blockstorageingestor.Objstore.{bytes_reader}
use blockstorageingestor.Objstore.Memory.{memory, memory_reading, memory-IsReliable, lookup}
use blockstorageingestor.Tsdb.BucketIndex.Markers.{
  is_block_deletion_mark_filename, is_block_no_compact_mark_filename, block_deletion_mark_filepath,
  no_compact_mark_filepath,
}
use blockstorageingestor.Tsdb.BucketIndex.Markers.Laws.{mark_filenames}
use blockstorageingestor.Tsdb.BucketIndex.GlobalMarkers.{
  is_mark, global_markers, upload, with_expected_errs,
}
use blockstorageingestor.Tsdb.BucketIndex.GlobalMarkers.Paths.{
  block_file, global_file, is_mark-block_file,
}
use blockstorageingestor.Tsdb.BucketIndex.GlobalMarkers.Copies.{
  upload_mark, with_expected_errs-uncopied,
}
use blockstorageingestor.Tests.Data.{
  alice, alice-IsPlain, block_format, block_format-IsBlockFormat, block_a,
}

mark_filenames_example :
    let t = block_format in
    (is_block_deletion_mark_filename t (block_deletion_mark_filepath t block_a) ≡ some block_a)
    × (is_block_no_compact_mark_filename t (no_compact_mark_filepath t block_a) ≡ some block_a)
    × (is_block_deletion_mark_filename t (no_compact_mark_filepath t block_a) ≡ none)
    × (is_block_no_compact_mark_filename t (block_deletion_mark_filepath t block_a) ≡ none)
mark_filenames_example = mark_filenames block_format block_format-IsBlockFormat block_a

-- The deletion mark of a block of a tenant, and its copy.
abbrev name : Str
name = codes "alice/01A/deletion-mark.json"

abbrev copy : Str
copy = codes "alice/markers/01A-deletion-mark.json"

is_mark-block_file_example :
    let file =
      block_file block_format block_format-IsBlockFormat (alice ∷ []) (alice-IsPlain, tt) block_a in
    let global =
      global_file block_format block_format-IsBlockFormat
        (alice ∷ [])
        (alice-IsPlain, tt)
        block_a in
    (is_mark block_format false (file (codes "deletion-mark.json"))
      ≡ some (global (codes "deletion-mark.json")))
    × (is_mark block_format false (file (codes "no-compact-mark.json"))
        ≡ some (global (codes "no-compact-mark.json")))
is_mark-block_file_example =
    is_mark-block_file block_format block_format-IsBlockFormat (alice ∷ []) (alice-IsPlain, tt)
      block_a false

abbrev other_name : Str
other_name = codes "a/meta.json"

other_differs :
    (str_beq (base other_name) (codes "deletion-mark.json") ≡ false)
    × (str_beq (base other_name) (codes "no-compact-mark.json") ≡ false)
unfolding base str_beq
other_differs = (refl, refl)

marked : is_mark block_format false name ≡ some copy
unfolding join str_beq
marked =
    (is_mark-block_file block_format block_format-IsBlockFormat (alice ∷ []) (alice-IsPlain, tt)
      block_a false).0

upload_mark_example :
    let done =
      upload block_format false memory
        (global_markers true)
        none
        name
        (bytes_reader (codes "1"))
        [] in
    (done.0 ≡ ok tt)
    × ((m : Str)
        → lookup done.1 m ≡ (if m == name || m == copy then some (codes "1") else lookup [] m))
upload_mark_example =
    upload_mark block_format false memory true none name memory_reading memory-IsReliable copy
      marked (bytes_reader (codes "1")) (codes "1") [] tt (inl refl)

abbrev stored : memory.State
stored = (name, codes "1") ∷ []

stored-view : lookup stored name ≡ some (codes "1")
unfolding lookup str_beq
stored-view = refl

copy_differs : (copy == name) ≡ false
unfolding str_beq
copy_differs = refl

with_expected_errs-uncopied_example :
    let done =
      upload block_format false memory
        (with_expected_errs block_format false memory true (λ e. true))
        none
        name
        (bytes_reader (codes "1"))
        [] in
    (done.0 ≡ ok tt)
    × ((m : Str) → lookup done.1 m ≡ (if m == name then some (codes "1") else lookup [] m))
    × (lookup done.1 copy ≡ lookup [] copy)
with_expected_errs-uncopied_example =
    with_expected_errs-uncopied block_format false memory true none name memory_reading
      memory-IsReliable copy marked (λ p. true) (λ e. true) (bytes_reader (codes "1")) (codes "1")
      [] refl tt (inl refl) copy_differs
