-- ===== src/Objstore/Listing/Removed.antt =====
-- A change of the store that takes away the objects of a selection, and how many there were.
use blockstorageingestor.Prelude.{
  ℕ, ◌+◌, ◌≡◌, refl, Bool, true, false, ◌&&◌, ◌||◌, none, some, List, [], ◌∷◌, ◌++◌, arith,
  if◌then◌else◌, ◌==◌, nat_eq, length, length-append, contains, Str, str_beq_iff, str_eq,
  str_beq_refl,
}
use blockstorageingestor.Objstore.{Bucket}
use blockstorageingestor.Objstore.Lawful.{Reading, IsReliable, is_some}

abbrev pub IsDistinct : List Str → Type 0
IsDistinct [] = Unit
IsDistinct (n ∷ ns) = (contains ns n ≡ false) × IsDistinct ns

-- `names` are the objects taken away, each once.
pub record Removed (B : Bucket) (V : Reading B) (b : B.Self) (sel : Str → Bool) (s t : B.State)
    (count : ℕ) : Type 0 where
  pub view : (m : Str) → V.view b t m ≡ (if sel m then none else V.view b s m)
  pub names : List Str
  pub counted : length names ≡ count
  pub exactly : (m : Str) → contains names m ≡ (sel m && is_some (V.view b s m))
  pub distinct : IsDistinct names

contains-append :
    (xs ys : List Str) (m : Str) → contains (xs ++ ys) m ≡ (contains xs m || contains ys m)
contains-append [] ys m = refl
contains-append (x ∷ xs) ys m = ground (arith, contains-append xs ys m)

IsDistinct-append :
    (xs ys : List Str)
    → IsDistinct xs
    → IsDistinct ys
    → ((m : Str) → contains xs m ≡ true → contains ys m ≡ false)
    → IsDistinct (xs ++ ys)
IsDistinct-append [] ys p q h = q
IsDistinct-append (x ∷ xs) ys p q h = (
  ground (arith, contains-append xs ys x, p.0, h x, str_beq_refl x),
  IsDistinct-append xs ys p.1 q (λ m k. h m (ground arith)),
)

module _ (B : Bucket) (V : Reading B) (b : B.Self) where
  pub Removed-none : (s : B.State) → Removed B V b (λ m. false) s s 0
  Removed-none s = record {
    view = λ m. refl;
    names = [];
    counted = refl;
    exactly = λ m. refl;
    distinct = tt;
  }

  pub Removed-both :
      (f g : Str → Bool) (s t u : B.State) (j k : ℕ)
      → Removed B V b f s t j
      → Removed B V b g t u k
      → Removed B V b (λ m. f m || g m) s u (j + k)
  Removed-both f g s t u j k p q = record {
    view = λ m. ground (arith, p.view m, q.view m);
    names = p.names ++ q.names;
    counted = omega (arith, length-append p.names q.names, p.counted, q.counted);
    exactly =
        λ m. ground (arith, contains-append p.names q.names m, p.exactly m, q.exactly m, p.view m);
    distinct =
        IsDistinct-append p.names q.names p.distinct q.distinct
          (λ m h. ground (arith, p.exactly m, q.exactly m, p.view m));
  }

  -- the same objects, by another test
  pub Removed-as :
      (f g : Str → Bool) (s t : B.State) (k : ℕ)
      → ((m : Str) → is_some (V.view b s m) ≡ true → f m ≡ g m)
      → Removed B V b f s t k
      → Removed B V b g s t k
  Removed-as f g s t k h p = record {
    view = λ m. ground (arith, p.view m, h m);
    names = p.names;
    counted = p.counted;
    exactly = λ m. ground (arith, p.exactly m, h m);
    distinct = p.distinct;
  }

  pub Removed-one :
      (R : IsReliable B V) (ctx : B.Context) (n c : Str) (s : B.State)
      → V.view b s n ≡ some c
      → Removed B V b (λ m. m == n) s (B.delete b ctx n s).1 1
  Removed-one R ctx n c s e = record {
    view = λ m. R.view-delete b ctx n s m;
    names = n ∷ [];
    counted = refl;
    exactly = λ m. ground (arith, str_beq_iff n m, str_beq_iff m n, e);
    distinct = (refl, tt);
  }
