-- ===== src/Objstore/Memory/Listing.antt =====
-- The listings of the bucket in memory.
use blockstorageingestor.Prelude.{
  ℕ, ◌≡◌, refl, true, false, some, [], ◌∷◌, ◌++◌, arith, nat_beq_iff, nat_eq, Str, str_beq, str_eq,
}
use blockstorageingestor.Go.Strings.{has_prefix, has_suffix, behind}
use blockstorageingestor.Objstore.Listing.{is_dir}
use blockstorageingestor.Objstore.Memory.Store.{first_part}

pub behind-some : (n d r : Str) → behind n d ≡ some r → n ≡ d ++ r
unfolding behind
behind-some n [] r h = ground arith
behind-some [] (c ∷ d) r h = cc
behind-some (x ∷ n) (c ∷ d) r h = ground (arith, behind-some n d r, nat_beq_iff x c)

pub behind-has_prefix : (n d : Str) → has_prefix n d ≡ true → (r : Str) × (behind n d ≡ some r)
unfolding behind has_prefix
behind-has_prefix n [] h = (n, refl)
behind-has_prefix [] (c ∷ d) h = let no : ⊥ = cc in elim no [ ]
behind-has_prefix (x ∷ n) (c ∷ d) h =
    let (r, e) = behind-has_prefix n d (ground arith) in (r, ground arith)

pub has_prefix-append : (d p : Str) → has_prefix (d ++ p) d ≡ true
unfolding has_prefix
has_prefix-append [] p = refl
has_prefix-append (c ∷ d) p = ground (arith, has_prefix-append d p, nat_beq_iff c c)

pub has_prefix-append_both : (d p q : Str) → has_prefix (d ++ p) (d ++ q) ≡ has_prefix p q
unfolding has_prefix
has_prefix-append_both [] p q = refl
has_prefix-append_both (c ∷ d) p q = ground (arith, has_prefix-append_both d p q, nat_beq_iff c c)

-- The last byte decides.
pub is_dir-append : (d : Str) (c : ℕ) (p : Str) → is_dir (d ++ c ∷ p) ≡ is_dir (c ∷ p)
unfolding has_suffix str_beq
is_dir-append [] c p = refl
is_dir-append (x ∷ []) c p = ground (arith, is_dir-append [] c p)
is_dir-append (x ∷ y ∷ d) c p = ground (arith, is_dir-append (y ∷ d) c p)

pub first_part-whole : (s : Str) → is_dir (first_part s) ≡ false → first_part s ≡ s
unfolding first_part has_suffix str_beq
first_part-whole [] h = refl
first_part-whole (c ∷ s) h = ground (arith, first_part-whole s)

pub first_part-prefix : (s : Str) → has_prefix s (first_part s) ≡ true
unfolding first_part has_prefix
first_part-prefix [] = refl
first_part-prefix (c ∷ s) = ground (arith, first_part-prefix s, nat_beq_iff c c)

-- A part of which a directory is a prefix is a directory.
pub first_part-is_dir :
    (s q : Str)
    → has_prefix (first_part s) q ≡ true
    → is_dir q ≡ true
    → is_dir (first_part s) ≡ true
unfolding first_part has_prefix has_suffix str_beq
first_part-is_dir [] [] h k = k
first_part-is_dir [] (c ∷ q) h k = cc
first_part-is_dir (x ∷ s) [] h k = cc
first_part-is_dir (x ∷ s) (c ∷ q) h k = ground (arith, first_part-is_dir s q, nat_beq_iff x c)
