-- ===== src/Tests/Ranges.antt =====
-- Block ranges as the value of a flag.
use blockstorageingestor.Prelude.{
  ℤ, pos, negsuc, ◌+◌, ◌-◌, ◌≡◌, ap, [], ◌∷◌, arith, nat_eq, Lacks, Str, str_eq,
}
use blockstorageingestor.Errors.{Result, ok, err, foreign}
use blockstorageingestor.Tsdb.Config.DurationList.{Durations, comma, to_string, set_list}
use blockstorageingestor.Tsdb.Config.DurationList.Laws.{IsDurations, set_list-to_string}

-- A duration as one byte past the comma, with a byte before it if it is negative.
abbrev shown : ℤ → Str
shown (pos n) = (n + 45) ∷ []
shown (negsuc n) = 1 ∷ (n + 45) ∷ []

abbrev read : Str → Result ℤ
read (c ∷ []) = ok (pos (c - 45))
read (s ∷ c ∷ []) = ok (negsuc (c - 45))
read _ = err (foreign 1)

abbrev durations : Durations
durations = record { show_duration = shown; parse_duration = read; milliseconds = λ t. t }

read-shown : (t : ℤ) → read (shown t) ≡ ok t
read-shown (pos n) = ap (λ m. ok (pos m)) (omega arith)
read-shown (negsuc n) = ap (λ m. ok (negsuc m)) (omega arith)

shown-Lacks : (t : ℤ) → Lacks comma (shown t)
shown-Lacks (pos n) = omega arith
shown-Lacks (negsuc n) = omega arith

durations-IsDurations : IsDurations durations
durations-IsDurations = record { parse-show = read-shown; show-Lacks = shown-Lacks }

set_list-to_string_example :
    set_list durations (to_string durations (pos 7 ∷ negsuc 2 ∷ [])) (pos 1 ∷ [])
    ≡ (ok tt, pos 7 ∷ negsuc 2 ∷ [])
set_list-to_string_example =
    set_list-to_string durations durations-IsDurations (pos 7) (negsuc 2 ∷ []) (pos 1 ∷ [])
