-- ===== src/Bucket/DeletePrefix.antt =====
-- pkg/storage/bucket/bucket_util.go: the recursive deletion of a directory of the object store.
pub mod Laws
use blockstorageingestor.Prelude.{
  ℤ, pos, negsuc, at_most, above, ℕ, zero, suc, ◌+◌, ◌-◌, ◌*◌, ◌/◌, ◌%◌, ◌^◌, ◌≤◌, ◌<◌, ◌≡◌, refl,
  sym, ap, ◌∙◌, ◌≢◌, ◌↔◌, ◌⊎◌, inl, inr, Bool, true, false, not, ◌&&◌, ◌||◌, Option, none, some,
  List, [], ◌∷◌, ◌++◌, map, append-nil, append_assoc, arith, ltb, leb, nat_beq, nat_beq_iff,
  if◌then◌else◌, Comparable, ◌==◌, nat_eq, Bool-cases, Option-cases, length, get_elem?, take, drop,
  length-append, contains, All, All-append, Lacks, select, get_elem?-append, Str, codes, str_beq,
  str_beq_iff, str_eq, str_beq_refl, str_beq-append,
}
use blockstorageingestor.Errors.{Result, ok, err}
use blockstorageingestor.Exec.{Exec}
use blockstorageingestor.Go.Strings.{has_suffix}
use blockstorageingestor.Objstore.{Bucket}

-- The variable `result` of a call, and whether the fuel of the model ran out below it.
pub record Tally : Type 0 where
  pub result : ℕ
  pub ran_out : Bool

-- `result += deleted`
abbrev pub add_deleted : Tally → Tally → Tally
add_deleted x y = record { result = x.result + y.result; ran_out = x.ran_out || y.ran_out }

-- `result++`, past an error of the deletion
abbrev pub count_deleted : Result (Unit {0}) → Tally → Tally
count_deleted (ok u) x = record x { result = x.result + 1 }
count_deleted (err e) x = x

module _ (B : Bucket) where
  -- The callback, with the recursive call as an argument.
  unfoldable pub delete_entry :
      (Str → B.State → Result (Unit {0}) × (B.State × Tally))
      → B.Self
      → B.Context
      → Str
      → Exec (B.State × Tally) (Unit {0})
  delete_entry inner b ctx name (s, x) =
      if has_suffix name (codes "/")
      then (let (r, (t, y)) = inner name s in (r, (t, add_deleted x y)))
      else (let (r, t) = B.delete b ctx name s in (r, (t, count_deleted r x)))

  -- `DeletePrefix`, on fuel: the depth of the directories.
  unfoldable pub delete_prefix :
      ℕ → B.Self → B.Context → Str → B.State → Result (Unit {0}) × (B.State × Tally)
  unfolding delete_entry
  delete_prefix zero b ctx prefix s = (ok tt, (s, record { result = 0; ran_out = true }))
  delete_prefix (suc fuel) b ctx prefix s =
      B.iter b Tally ctx prefix (delete_entry (delete_prefix fuel b ctx) b ctx) []
        (s, record { result = 0; ran_out = false })
