-- ===== src/Command/Start/Modules.antt =====
-- The list of modules that the program prints.
use blockstorageingestor.Prelude.{
  ◌≡◌, inl, inr, List, arith, nat_eq, Bool-cases, Option-cases, get_elem?, contains, Str,
  str_beq_iff, str_eq, str_beq_refl,
}
use blockstorageingestor.Go.Sort.{search_strings}
use blockstorageingestor.Go.Sort.Laws.{
  IsSorted, search_strings-contains, contains-get_elem?, get_elem?-length,
}
use blockstorageingestor.Command.Start.{Program, is_included}

module _ (P : Program) where
  -- Among sorted dependencies, a module is marked exactly if it is one of them.
  pub is_included_lem :
      (deps : List Str) (m : Str) → IsSorted deps → is_included P deps m ≡ contains deps m
  unfolding is_included
  is_included_lem deps m s =
      let ix = search_strings deps m in
      elim (Bool-cases (contains deps m)) [
        | inl c ↦
            let p = search_strings-contains deps m s c in
            let l = get_elem?-length deps ix m p in
            rw (c, is_included, p) (ground (arith, l, str_beq_refl m))
        | inr c ↦ elim (Option-cases (get_elem? deps ix)) [
          | inl e ↦ rw (c, is_included, e) (ground arith)
          | inr (y, e) ↦
              rw (c, is_included, e)
                (ground (arith, c, contains-get_elem? deps ix y e, str_beq_iff y m))
        ]
      ]
