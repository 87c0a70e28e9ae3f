-- ===== src/Tsdb/CachingBucket/Names.antt =====
-- pkg/storage/tsdb/caching_bucket.go: which files and directories are cached.
pub mod Laws
pub mod Apart
use blockstorageingestor.Prelude.{
  ℤ, pos, negsuc, at_most, above, ℕ, zero, suc, ◌+◌, ◌-◌, ◌*◌, ◌/◌, ◌%◌, ◌^◌, ◌≤◌, ◌<◌, ◌≡◌, refl,
  sym, ap, ◌∙◌, ◌≢◌, ◌↔◌, ◌⊎◌, inl, inr, Bool, true, false, not, ◌&&◌, ◌||◌, Option, none, some,
  List, [], ◌∷◌, ◌++◌, map, append-nil, append_assoc, arith, ltb, leb, nat_beq, nat_beq_iff,
  if◌then◌else◌, Comparable, ◌==◌, nat_eq, Bool-cases, Option-cases, length, get_elem?, take, drop,
  length-append, contains, All, All-append, Lacks, select, get_elem?-append, Str, codes, str_beq,
  str_beq_iff, str_eq, str_beq_refl, str_beq-append,
}
use blockstorageingestor.Go.Strings.{behind, has_suffix}
use blockstorageingestor.Go.FilePath.{slash, base, dir}
use blockstorageingestor.Tsdb.DeletionMark.{tenant_deletion_mark_path}

-- The constants of `metadata` and `block` of Thanos, and whether `ulid.Parse` takes a text.
pub record FileNames : Type 0 where
  pub meta_filename : Str
  pub deletion_mark_filename : Str
  pub index_filename : Str
  pub is_ulid : Str → Bool

abbrev pub newline : ℕ
newline = 10

abbrev pub is_digit : ℕ → Bool
is_digit c = leb b'0' c && leb c b'9'

unfoldable pub all_digits : Str → Bool
all_digits [] = true
all_digits (c ∷ s) = is_digit c && all_digits s

-- `\d+` up to the end
abbrev pub is_number : Str → Bool
is_number [] = false
is_number (c ∷ s) = all_digits (c ∷ s)

abbrev pub chunks_infix : Str
chunks_infix = codes "/chunks/"

abbrev pub is_number_of : Option Str → Bool
is_number_of none = false
is_number_of (some s) = is_number s

-- The expression `^.*/chunks/\d+$`: here, or behind a character that is no newline.
unfoldable pub is_tsdb_chunk_file : Str → Bool
unfolding all_digits
is_tsdb_chunk_file [] = false
is_tsdb_chunk_file (c ∷ s) =
    let rest = is_tsdb_chunk_file s in
    is_number_of (behind (c ∷ s) chunks_infix) || (not (nat_beq c newline) && rest)

module _ (N : FileNames) where
  unfoldable pub is_meta_file : Str → Bool
  is_meta_file name =
      has_suffix name (slash ∷ N.meta_filename)
      || has_suffix name (slash ∷ N.deletion_mark_filename)
      || has_suffix name (slash ∷ tenant_deletion_mark_path)

  unfoldable pub is_block_index_file : Str → Bool
  is_block_index_file name =
      if not (has_suffix name (slash ∷ N.index_filename))
      then false
      else N.is_ulid (base (dir name))

abbrev pub bucket_index_suffix : Str
bucket_index_suffix = codes "/bucket-index.json.gz"

unfoldable pub is_bucket_index_file : Str → Bool
is_bucket_index_file name = has_suffix name bucket_index_suffix

unfoldable pub is_tenants_dir : Str → Bool
is_tenants_dir name = name == []

-- The expression `^[^/]+/?$`, behind its first character.
unfoldable pub ends_component : Str → Bool
ends_component [] = true
ends_component (c ∷ s) = let rest = ends_component s in if nat_beq c slash then s == [] else rest

unfoldable pub is_tenant_blocks_dir : Str → Bool
unfolding ends_component
is_tenant_blocks_dir [] = false
is_tenant_blocks_dir (c ∷ s) = not (nat_beq c slash) && ends_component s

unfoldable pub is_chunks_dir : Str → Bool
is_chunks_dir name = has_suffix name (codes "/chunks")
