-- ===== src/Tsdb/Config/DurationList/Laws.antt =====
-- The text of a list of durations is read back.
use blockstorageingestor.Prelude.{
  ℤ, ◌≡◌, refl, ◌≢◌, List, [], ◌∷◌, ◌++◌, map, append-nil, append_assoc, nat_eq, All, Lacks, str_eq,
}
use blockstorageingestor.Errors.{ok}
use blockstorageingestor.Go.Strings.Laws.{split-join}
use blockstorageingestor.Tsdb.Config.DurationList.{Durations, comma, to_string, set_loop, set_list}

-- A duration is read back from its text, which holds no comma.
pub record IsDurations (D : Durations) : Type 0 where
  pub parse-show : (t : ℤ) → D.parse_duration (D.show_duration t) ≡ ok t
  pub show-Lacks : (t : ℤ) → Lacks comma (D.show_duration t)

module _ (D : Durations) (W : IsDurations D) where
  set_loop-show : (d e : List ℤ) → set_loop D (map D.show_duration d) e ≡ (ok tt, e ++ d)
  unfolding set_loop
  set_loop-show [] e = rw (append-nil) refl
  set_loop-show (t ∷ d) e = rw (W.parse-show t, set_loop-show d (e ++ t ∷ []), append_assoc) refl

  show-All-Lacks : (d : List ℤ) → All (Lacks comma) (map D.show_duration d)
  show-All-Lacks [] = tt
  show-All-Lacks (t ∷ d) = (W.show-Lacks t, show-All-Lacks d)

  -- A list of durations that is not empty is read back from its text, whatever the value held before.
  pub set_list-to_string :
      (t : ℤ) (d old : List ℤ) → set_list D (to_string D (t ∷ d)) old ≡ (ok tt, t ∷ d)
  unfolding set_list to_string
  set_list-to_string t d old =
      let some_text : map D.show_duration (t ∷ d) ≢ [] = cc in
      rw (split-join comma (map D.show_duration (t ∷ d)) some_text (show-All-Lacks (t ∷ d)))
        (set_loop-show (t ∷ d) [])
