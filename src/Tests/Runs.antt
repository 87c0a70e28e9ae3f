-- ===== src/Tests/Runs.antt =====
-- A run over the bucket in memory, one of whose uploads fails.
use blockstorageingestor.Prelude.{
  ◌≡◌, refl, ◌⊎◌, inl, inr, Bool, true, false, none, [], ◌∷◌, nat_eq, Str, codes, str_beq, str_eq,
}
use blockstorageingestor.Errors.{Result, foreign, ok, err}
use blockstorageingestor.Go.FilePath.{base, dir, clean, path_join}
use blockstorageingestor.Go.Strings.{split, join}
use blockstorageingestor.Objstore.Lawful.{is_some}
use blockstorageingestor.Tsdb.BucketIndex.GlobalMarkers.{is_mark}
use blockstorageingestor.Tsdb.BucketIndex.GlobalMarkers.Places.{copy_place}
use blockstorageingestor.Objstore.Memory.{remove}
use blockstorageingestor.Objstore.{Reader, bytes_reader, bytes_buffer}
use blockstorageingestor.Objstore.Memory.{
  Objects, memory, memory_reading, memory-IsReliable, lookup, put,
}
use blockstorageingestor.Tsdb.BucketIndex.GlobalMarkers.{Client, global_markers, upload, delete}
use blockstorageingestor.Tsdb.BucketIndex.GlobalMarkers.Places.{Mark, mark_place}
use blockstorageingestor.Tsdb.BucketIndex.GlobalMarkers.Calls.{
  IsFallible, Puts, Keeps, Fails, mark, AreCopied,
}
use blockstorageingestor.Tsdb.BucketIndex.GlobalMarkers.Runs.{
  uploads, deletes, here, next, Reach-AreCopied,
}
use blockstorageingestor.Tsdb.BucketIndex.GlobalMarkers.Mirror.{AreMirrored, Reach-AreMirrored}
use blockstorageingestor.Tests.Data.{
  parse_block, alice, alice-IsPlain, block_format, block_format-IsBlockFormat, block_a, no_markers,
}

put-effect :
    (b : Bool) (n : Str) (body : Result Str) (s : Objects)
    → Puts memory memory_reading b n s (put body n s).1
      ⊎ (Keeps memory memory_reading b s (put body n s).1
          × Fails memory memory_reading b (put body n s).0)
unfolding put
put-effect b n (ok c) s =
    inl (c, memory-IsReliable.view-upload b none n (bytes_buffer c) s c tt (inr refl))
put-effect b n (err e) s = inr (λ m. refl, (e, refl))

memory-IsFallible : IsFallible memory memory_reading
memory-IsFallible = record {
  upload-effect = λ b ctx n r s. put-effect b n r.unread s;
  delete-effect = λ b ctx n s. inl (memory-IsReliable.view-delete b ctx n s);
}

abbrev deletion_mark : Mark block_format block_format-IsBlockFormat
deletion_mark = record {
  pre = alice ∷ [];
  above = (alice-IsPlain, tt);
  id = block_a;
  file = codes "deletion-mark.json";
  kind = inl refl;
}

empty-AreCopied : AreCopied block_format block_format-IsBlockFormat (lookup [])
unfolding lookup
empty-AreCopied p h = let no : ⊥ = cc in elim no [ ]

-- a reader that cannot be read
abbrev broken : Reader
broken = record { unread = err (foreign 5); seek_start = none }

abbrev bucket : Client block_format false memory
bucket = global_markers true

abbrev place : Str
place = mark_place block_format block_format-IsBlockFormat deletion_mark

abbrev uploaded : Objects
uploaded = (upload block_format false memory bucket none place (bytes_reader (codes "1")) []).1

abbrev refused : Objects
refused = (upload block_format false memory bucket none place broken uploaded).1

abbrev deleted : Objects
deleted = (delete block_format true memory (global_markers true) none place uploaded).1

still_marked : is_some (lookup refused place) ≡ true
unfolding lookup upload is_mark put remove str_beq base dir clean split join path_join parse_block
still_marked = refl

Reach-AreCopied_example :
    is_some (lookup refused (copy_place block_format block_format-IsBlockFormat deletion_mark))
    ≡ true
Reach-AreCopied_example =
    Reach-AreCopied block_format block_format-IsBlockFormat memory true (λ r. Unit {0})
      memory_reading memory-IsFallible no_markers [] refused
      (next
        (next here
          (uploads false none place (bytes_reader (codes "1")) tt (mark deletion_mark refl) refl))
        (uploads false none place broken tt (mark deletion_mark refl) refl))
      empty-AreCopied deletion_mark still_marked

empty-AreMirrored : AreMirrored block_format block_format-IsBlockFormat no_markers (lookup [])
unfolding lookup
empty-AreMirrored p = refl

Reach-AreMirrored_example :
    lookup deleted place
    ≡ lookup deleted (copy_place block_format block_format-IsBlockFormat deletion_mark)
Reach-AreMirrored_example =
    Reach-AreMirrored block_format block_format-IsBlockFormat no_markers memory memory_reading
      memory-IsReliable true tt [] deleted
      (next
        (next here (
          uploads false none place (bytes_reader (codes "1")) (codes "1", inl refl)
            (mark deletion_mark refl) refl))
        (deletes true none place (mark deletion_mark refl) refl))
      empty-AreMirrored deletion_mark
