-- ===== src/Exec.antt =====
-- Code that changes a state and may fail. What was changed before an error stays changed, so the
-- state comes back beside the error too.
use blockstorageingestor.Prelude.{◌≡◌, refl, List, [], ◌∷◌, map, nat_eq, str_eq}
use mathlib.Core.Path.{fun_ext}
use blockstorageingestor.Errors.{Error, Result, ok, err}

abbrev pub Exec : Type 0 → Type 0 → Type 0
Exec S A = S → Result A × S

module _ {S A : Type 0} where
  abbrev pub pure : A → Exec S A
  pure a s = (ok a, s)

  abbrev pub raise : Error → Exec S A
  raise e s = (err e, s)

  -- the outcome of `m` changed by `f`, its effect kept
  abbrev pub with_result : {B : Type 0} → (Result A → Result B) → Exec S A → Exec S B
  with_result f m s = let (r, t) = m s in (f r, t)

module _ {S A B : Type 0} where
  abbrev pub continue : Result A → (A → Exec S B) → Exec S B
  continue (ok a) f s = f a s
  continue (err e) f s = (err e, s)

  infixl 5 ◌>>=◌
  abbrev pub ◌>>=◌ : Exec S A → (A → Exec S B) → Exec S B
  ◌>>=◌ m f s = let (r, t) = m s in continue r f t

module _ {S B : Type 0} where
  infixl 5 ◌>>◌
  abbrev pub ◌>>◌ : Exec S (Unit {0}) → Exec S B → Exec S B
  m >> k = m >>= λ _. k

module _ {S : Type 0} where
  -- An error-returning callback over a list: it stops at the first error.
  unfoldable pub for_each : {A : Type 0} → List A → (A → Exec S (Unit {0})) → Exec S (Unit {0})
  for_each [] f s = (ok tt, s)
  for_each (a ∷ as') f s = let (r, t) = f a s in continue r (λ _. for_each as' f) t

  pub for_each-map :
      {A B : Type 0} (g : A → B) (f : B → Exec S (Unit {0})) (xs : List A) (s : S)
      → for_each (map g xs) f s ≡ for_each xs (λ a. f (g a)) s
  unfolding for_each
  for_each-map g f [] s = refl
  for_each-map g f (x ∷ xs) s = rw (fun_ext (for_each-map g f xs)) refl
