-- ===== src/Objstore/Memory/Store.antt =====
-- The bucket. Like the store of a test, it is a list of names with their contents.
use blockstorageingestor.Prelude.{
  ℕ, Bool, false, Option, none, some, List, [], ◌∷◌, ◌++◌, nat_beq, if◌then◌else◌, ◌==◌, nat_eq,
  contains, Str, codes, str_eq,
}
use blockstorageingestor.Errors.{Error, foreign, Result, ok, err}
use blockstorageingestor.Exec.{for_each}
use blockstorageingestor.Go.Strings.{behind}
use blockstorageingestor.Objstore.Listing.{as_dir}
use blockstorageingestor.Objstore.Lawful.{is_some, Reading}
use blockstorageingestor.Objstore.{bytes_reader, ReadCloser, Bucket}

abbrev pub Objects : Type 0
Objects = List (Str × Str)

unfoldable pub lookup : Objects → Str → Option Str
lookup [] n = none
lookup ((m, c) ∷ os) n = if n == m then some c else lookup os n

unfoldable pub remove : Objects → Str → Objects
remove [] n = []
remove ((m, c) ∷ os) n = let rest = remove os n in if n == m then rest else (m, c) ∷ rest

-- The first component of a path, with its slash if there is one.
unfoldable pub first_part : Str → Str
first_part [] = []
first_part (c ∷ s) = let rest = first_part s in if nat_beq c b'/' then c ∷ [] else c ∷ rest

-- The entries of a directory; an object that has the directory's name is none.
unfoldable pub listed : Objects → Str → List Str
unfolding first_part behind
listed [] d = []
listed ((n, c) ∷ os) d =
    let rest = listed os d in
    elim (behind n d) [
      | none ↦ rest
      | some [] ↦ rest
      | some (x ∷ s) ↦ let e = d ++ first_part (x ∷ s) in if contains rest e then rest else e ∷ rest
    ]

abbrev pub not_found : Error
not_found = foreign 404

unfoldable pub is_not_found : Option Error → Bool
is_not_found (some (foreign c)) = nat_beq c 404
is_not_found _ = false

unfoldable pub put : Result Str → Str → Objects → Result (Unit {0}) × Objects
unfolding remove
put (ok c) n os = (ok tt, (n, c) ∷ remove os n)
put (err e) n os = (err e, os)

unfoldable pub fetched : Option Str → Result ReadCloser
fetched none = err not_found
fetched (some c) = ok (record { reader = bytes_reader c; close = ok tt })

unfoldable pub found : Option Str → Result (Unit {0})
found none = err not_found
found (some c) = ok tt

-- A client is instrumented or not. A context is the server-side encryption that it asks for.
abbrev pub memory : Bucket
memory = record {
  Self = Bool;
  State = Objects;
  Context = Option Str;
  IterOption = Unit;
  Attributes = ℕ;
  name = λ b. codes "memory";
  close = λ b s. (ok tt, s);
  upload = λ b ctx n r s. put r.unread n s;
  delete = λ b ctx n s. (found (lookup s n), remove s n);
  iter = λ b X ctx d f os (s, x). for_each (listed s (as_dir d)) f (s, x);
  get = λ b ctx n s. (fetched (lookup s n), s);
  get_range = λ b ctx n off len s. (fetched (lookup s n), s);
  exists = λ b ctx n s. (ok (is_some (lookup s n)), s);
  attributes = λ b ctx n s. (ok 0, s);
  is_obj_not_found_err = λ b e. is_not_found e;
  as_instrumented = λ b. if b then some (λ p. b) else none;
}

abbrev pub memory_reading : Reading memory
memory_reading = record {
  view = λ b s n. lookup s n;
  entries = λ b s d. listed s (as_dir d);
  Accepts = λ b. Unit {0};
}
