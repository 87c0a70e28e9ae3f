-- ===== src/Command/Environment.antt =====
-- cmd/blockstoreingester/main.go: `expandEnv`.
pub mod Laws
use blockstorageingestor.Prelude.{
  ℤ, pos, negsuc, at_most, above, ℕ, zero, suc, ◌+◌, ◌-◌, ◌*◌, ◌/◌, ◌%◌, ◌^◌, ◌≤◌, ◌<◌, ◌≡◌, refl,
  sym, ap, ◌∙◌, ◌≢◌, ◌↔◌, ◌⊎◌, inl, inr, Bool, true, false, not, ◌&&◌, ◌||◌, Option, none, some,
  List, [], ◌∷◌, ◌++◌, map, append-nil, append_assoc, arith, ltb, leb, nat_beq, nat_beq_iff,
  if◌then◌else◌, Comparable, ◌==◌, nat_eq, Bool-cases, Option-cases, length, get_elem?, take, drop,
  length-append, contains, All, All-append, Lacks, select, get_elem?-append, Str, codes, str_beq,
  str_beq_iff, str_eq, str_beq_refl, str_beq-append,
}
use blockstorageingestor.Go.Strings.{split_2}
use blockstorageingestor.Go.Os.{expand_from, expand}

module _ (getenv : Str → Str) where
  -- the value of a key with its default
  abbrev pub or_default : List Str → Str
  or_default (key ∷ default ∷ parts) = if getenv key == [] then default else getenv key
  or_default (key ∷ []) = getenv key
  or_default [] = []

  -- the callback
  unfoldable pub variable : Str → Str
  variable key = or_default (split_2 key b':')

  unfoldable pub expand_env : Str → Str
  unfolding variable
  expand_env config = expand variable config
