-- ===== src/Go/Sort.antt =====
-- Go's `sort.SearchStrings`.
pub mod Laws
use blockstorageingestor.Prelude.{
  ℤ, pos, negsuc, at_most, above, ℕ, zero, suc, ◌+◌, ◌-◌, ◌*◌, ◌/◌, ◌%◌, ◌^◌, ◌≤◌, ◌<◌, ◌≡◌, refl,
  sym, ap, ◌∙◌, ◌≢◌, ◌↔◌, ◌⊎◌, inl, inr, Bool, true, false, not, ◌&&◌, ◌||◌, Option, none, some,
  List, [], ◌∷◌, ◌++◌, map, append-nil, append_assoc, arith, ltb, leb, nat_beq, nat_beq_iff,
  if◌then◌else◌, Comparable, ◌==◌, nat_eq, Bool-cases, Option-cases, length, get_elem?, take, drop,
  length-append, contains, All, All-append, Lacks, select, get_elem?-append, Str, codes, str_beq,
  str_beq_iff, str_eq, str_beq_refl, str_beq-append,
}
use blockstorageingestor.Go.Flags.{str_leb}

-- `a[h] >= x`; out of range, where Go panics, it is taken to hold
abbrev pub reaches : List Str → Str → ℕ → Bool
reaches a x h = elim (get_elem? a h) [ none ↦ true | some y ↦ str_leb x y ]

-- the loop of `sort.Search`, on fuel: each round makes the interval from `i` to `j` shorter
unfoldable pub search : ℕ → List Str → Str → ℕ → ℕ → ℕ
search zero a x i j = i
search (suc fuel) a x i j =
    let h = (i + j) / 2 in
    let right = reaches a x h in
    let rest = search fuel a x (if right then i else h + 1) (if right then h else j) in
    if ltb i j then rest else i

unfoldable pub search_strings : List Str → Str → ℕ
unfolding search
search_strings a x = search (length a) a x 0 (length a)
