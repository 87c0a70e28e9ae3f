-- ===== src/Tsdb/Config/DurationList.antt =====
-- pkg/storage/tsdb/config.go, `DurationList`: the block ranges, as the value of a flag.
pub mod Laws
use blockstorageingestor.Prelude.{
  ℤ, pos, negsuc, at_most, above, ℕ, zero, suc, ◌+◌, ◌-◌, ◌*◌, ◌/◌, ◌%◌, ◌^◌, ◌≤◌, ◌<◌, ◌≡◌, refl,
  sym, ap, ◌∙◌, ◌≢◌, ◌↔◌, ◌⊎◌, inl, inr, Bool, true, false, not, ◌&&◌, ◌||◌, Option, none, some,
  List, [], ◌∷◌, ◌++◌, map, append-nil, append_assoc, arith, ltb, leb, nat_beq, nat_beq_iff,
  if◌then◌else◌, Comparable, ◌==◌, nat_eq, Bool-cases, Option-cases, length, get_elem?, take, drop,
  length-append, contains, All, All-append, Lacks, select, get_elem?-append, Str, codes, str_beq,
  str_beq_iff, str_eq, str_beq_refl, str_beq-append,
}
use blockstorageingestor.Errors.{Error, Result, ok, err}
use blockstorageingestor.Go.Strings.{split, join}

-- `time.Duration` of Go: a duration in nanoseconds as text, and back; and in milliseconds.
pub record Durations : Type 0 where
  pub show_duration : ℤ → Str
  pub parse_duration : Str → Result ℤ
  pub milliseconds : ℤ → ℤ

abbrev pub comma : ℕ
comma = b','

module _ (D : Durations) where
  -- `(*DurationList).String`
  unfoldable pub to_string : List ℤ → Str
  to_string d = join (map D.show_duration d) comma

  -- the loop of `Set`, with what the list holds
  unfoldable pub set_loop : List Str → List ℤ → Result (Unit {0}) × List ℤ
  set_loop [] d = (ok tt, d)
  set_loop (v ∷ vs) d = elim (D.parse_duration v) [
    | err e ↦ (err e, d)
    | ok t ↦ set_loop vs (d ++ t ∷ [])
  ]

  -- `(*DurationList).Set`: what the list held is dropped first, and what was read before an error stays.
  unfoldable pub set_list : Str → List ℤ → Result (Unit {0}) × List ℤ
  unfolding set_loop
  set_list s d = set_loop (split s comma) []

  unfoldable pub to_milliseconds : List ℤ → List ℤ
  to_milliseconds d = map D.milliseconds d
