-- ===== src/Go/Strings.antt =====
-- Go's package `strings`, on bytes.
pub mod Laws
use blockstorageingestor.Prelude.{
  ℤ, pos, negsuc, at_most, above, ℕ, zero, suc, ◌+◌, ◌-◌, ◌*◌, ◌/◌, ◌%◌, ◌^◌, ◌≤◌, ◌<◌, ◌≡◌, refl,
  sym, ap, ◌∙◌, ◌≢◌, ◌↔◌, ◌⊎◌, inl, inr, Bool, true, false, not, ◌&&◌, ◌||◌, Option, none, some,
  List, [], ◌∷◌, ◌++◌, map, append-nil, append_assoc, arith, ltb, leb, nat_beq, nat_beq_iff,
  if◌then◌else◌, Comparable, ◌==◌, nat_eq, Bool-cases, Option-cases, length, get_elem?, take, drop,
  length-append, contains, All, All-append, Lacks, select, get_elem?-append, Str, codes, str_beq,
  str_beq_iff, str_eq, str_beq_refl, str_beq-append,
}

-- `strings.HasPrefix(s, prefix)`
unfoldable pub has_prefix : Str → Str → Bool
has_prefix s [] = true
has_prefix [] (c ∷ p) = false
has_prefix (d ∷ s) (c ∷ p) = nat_beq d c && has_prefix s p

-- The text behind `prefix`, if `s` begins with it.
unfoldable pub behind : Str → Str → Option Str
behind s [] = some s
behind [] (c ∷ p) = none
behind (d ∷ s) (c ∷ p) = let rest = behind s p in if nat_beq d c then rest else none

-- `strings.TrimPrefix(s, prefix)`
unfoldable pub trim_prefix : Str → Str → Str
unfolding behind
trim_prefix s p = elim (behind s p) [ none ↦ s | some rest ↦ rest ]

-- `strings.TrimSuffix(s, string(c))` at a suffix of one byte
unfoldable pub trim_suffix_byte : Str → ℕ → Str
trim_suffix_byte [] c = []
trim_suffix_byte (d ∷ []) c = if nat_beq d c then [] else d ∷ []
trim_suffix_byte (d ∷ e ∷ s) c = d ∷ trim_suffix_byte (e ∷ s) c

-- `strings.HasSuffix(s, suffix)`: the suffix is met at some tail.
unfoldable pub has_suffix : Str → Str → Bool
has_suffix [] t = [] == t
has_suffix (c ∷ s) t = let rest = has_suffix s t in if (c ∷ s) == t then true else rest

pub cons_head : ℕ → List Str → List Str
cons_head c [] = (c ∷ []) ∷ []
cons_head c (p ∷ ps) = (c ∷ p) ∷ ps

-- `strings.Split(s, string(sep))`
unfoldable pub split : Str → ℕ → List Str
unfolding cons_head
split [] sep = [] ∷ []
split (c ∷ s) sep = let rest = split s sep in if nat_beq c sep then [] ∷ rest else cons_head c rest

-- `strings.SplitN(s, string(sep), 2)`
unfoldable pub split_2 : Str → ℕ → List Str
unfolding cons_head
split_2 [] sep = [] ∷ []
split_2 (c ∷ s) sep =
    let rest = split_2 s sep in if nat_beq c sep then [] ∷ s ∷ [] else cons_head c rest

-- `strings.Join(parts, string(sep))`
unfoldable pub join : List Str → ℕ → Str
join [] sep = []
join (p ∷ []) sep = p
join (p ∷ q ∷ ps) sep = p ++ sep ∷ join (q ∷ ps) sep
