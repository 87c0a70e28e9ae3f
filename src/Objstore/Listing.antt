-- ===== src/Objstore/Listing.antt =====
-- What a listing of a directory holds: the entries of `Iter` in the buckets of Thanos, which take a
-- directory with or without its slash, fold what is deeper into names that end in a slash, and skip
-- an object that has the directory's own name.
pub mod Removed
use blockstorageingestor.Prelude.{
  ℤ, pos, negsuc, at_most, above, ℕ, zero, suc, ◌+◌, ◌-◌, ◌*◌, ◌/◌, ◌%◌, ◌^◌, ◌≤◌, ◌<◌, ◌≡◌, refl,
  sym, ap, ◌∙◌, ◌≢◌, ◌↔◌, ◌⊎◌, inl, inr, Bool, true, false, not, ◌&&◌, ◌||◌, Option, none, some,
  List, [], ◌∷◌, ◌++◌, map, append-nil, append_assoc, arith, ltb, leb, nat_beq, nat_beq_iff,
  if◌then◌else◌, Comparable, ◌==◌, nat_eq, Bool-cases, Option-cases, length, get_elem?, take, drop,
  length-append, contains, All, All-append, Lacks, select, get_elem?-append, Str, codes, str_beq,
  str_beq_iff, str_eq, str_beq_refl, str_beq-append,
}
use blockstorageingestor.Go.Strings.{has_prefix, has_suffix}
use blockstorageingestor.Objstore.{Bucket}
use blockstorageingestor.Objstore.Lawful.{Reading, is_some}

-- `strings.HasSuffix(name, objstore.DirDelim)`
abbrev pub is_dir : Str → Bool
is_dir e = has_suffix e (codes "/")

-- the directory with its slash; the root is the empty text
unfoldable pub as_dir : Str → Str
as_dir [] = []
as_dir (c ∷ []) = if nat_beq c b'/' then c ∷ [] else c ∷ b'/' ∷ []
as_dir (c ∷ d ∷ s) = c ∷ as_dir (d ∷ s)

pub as_dir-is_dir : (e : Str) → is_dir e ≡ true → as_dir e ≡ e
unfolding has_suffix as_dir str_beq
as_dir-is_dir [] h = refl
as_dir-is_dir (c ∷ []) h = ground arith
as_dir-is_dir (c ∷ d ∷ s) h = ap (λ t. c ∷ t) (as_dir-is_dir (d ∷ s) (ground arith))

-- A name that can be listed: not the empty one, and none that ends in a slash.
abbrev pub is_object : Str → Bool
is_object m = not (m == []) && not (is_dir m)

-- An object that stands below a directory.
unfoldable pub below : Str → Str → Bool
below d m = has_prefix m (as_dir d) && is_object m

-- An entry stands for itself, or for all that is below it.
unfoldable pub covers : Str → Str → Bool
unfolding below
covers e m = if is_dir e then below e m else m == e

abbrev pub covered : List Str → Str → Bool
covered [] m = false
covered (e ∷ es) m = covers e m || covered es m

-- No entry stands for a later one.
abbrev pub Apart : List Str → Type 0
Apart [] = Unit
Apart (e ∷ es) = All (λ x. covers e x ≡ false) es × Apart es

abbrev pub IsEntry : (B : Bucket) → Reading B → B.Self → B.State → Str → Str → Type 0
IsEntry B V b s d e =
    (has_prefix e (as_dir d) ≡ true)
    × (length (as_dir d) < length e)
    × (is_dir e ≡ false → is_some (V.view b s e) ≡ true)
    × (is_dir e ≡ true → (m : Str) × (has_prefix m e ≡ true) × (is_some (V.view b s m) ≡ true))

pub record IsListing (B : Bucket) (V : Reading B) : Type 0 where
  pub listed : (b : B.Self) (s : B.State) (d : Str) → All (IsEntry B V b s d) (V.entries b s d)
  pub complete :
      (b : B.Self) (s : B.State) (d m : Str)
      → is_some (V.view b s m) ≡ true
      → below d m ≡ true
      → covered (V.entries b s d) m ≡ true
  pub apart : (b : B.Self) (s : B.State) (d : Str) → Apart (V.entries b s d)
