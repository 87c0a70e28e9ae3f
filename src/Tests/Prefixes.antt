-- ===== src/Tests/Prefixes.antt =====
-- The deletion of a directory of the bucket in memory.
use blockstorageingestor.Prelude.{
  ◌≡◌, refl, true, false, none, [], ◌∷◌, arith, nat_eq, codes, str_beq, str_beq_iff, str_eq,
}
use blockstorageingestor.Errors.{ok}
use blockstorageingestor.Exec.{for_each}
use blockstorageingestor.Go.Strings.{has_suffix}
use blockstorageingestor.Objstore.Listing.{below, as_dir}
use blockstorageingestor.Objstore.Listing.Removed.{Removed}
use blockstorageingestor.Objstore.Memory.{
  memory, memory_reading, memory-IsReliable, memory-IsListing, Objects, lookup, remove, listed,
  found,
}
use blockstorageingestor.Bucket.DeletePrefix.{delete_prefix, delete_entry}
use blockstorageingestor.Bucket.DeletePrefix.Laws.{Bounded, delete_prefix_lem}

abbrev nested : Objects
nested =
    (codes "a/x", codes "1")
    ∷ (codes "a/b/y", codes "2")
    ∷ (codes "ab", codes "3")
    ∷ (codes "a/b/z", codes "4")
    ∷ []

nested-Bounded : Bounded memory memory_reading memory-IsReliable memory-IsListing true none 5 nested
unfolding lookup
nested-Bounded m h = ground (
  arith,
  h,
  str_beq_iff m (codes "a/x"),
  str_beq_iff m (codes "a/b/y"),
  str_beq_iff m (codes "ab"),
  str_beq_iff m (codes "a/b/z"),
)

delete_prefix_test :
    (delete_prefix memory 6 true none (codes "a") nested).1.0 ≡ (codes "ab", codes "3") ∷ []
unfolding delete_prefix delete_entry listed remove lookup for_each as_dir str_beq has_suffix found
delete_prefix_test = refl

delete_prefix_lem_example :
    let out = delete_prefix memory 6 true none (codes "a") nested in
    (out.0 ≡ ok tt)
    × (out.1.1.ran_out ≡ false)
    × Removed memory memory_reading true (below (codes "a")) nested out.1.0 out.1.1.result
delete_prefix_lem_example =
    delete_prefix_lem memory memory_reading memory-IsReliable memory-IsListing true none 5
      (codes "a") nested nested-Bounded
