-- ===== src/Objstore/Lawful.antt =====
-- What a reliable object store does: no call fails but for a missing object. These laws are the
-- documented behaviour of `objstore.Bucket`, whose implementations stand outside the repository.
use blockstorageingestor.Prelude.{
  ◌≡◌, ◌⊎◌, Bool, true, false, Option, none, some, List, if◌then◌else◌, ◌==◌, nat_eq, Str, str_eq,
}
use blockstorageingestor.Errors.{Error, ok, err}
use blockstorageingestor.Exec.{Exec, for_each}
use blockstorageingestor.Objstore.{Reader, bytes_reader, bytes_buffer, ReadCloser, Bucket}

-- A reader from which nothing has been read yet, with the content `c`.
abbrev pub IsFresh : Reader → Str → Type 0
IsFresh r c = (r ≡ bytes_reader c) ⊎ (r ≡ bytes_buffer c)

abbrev pub is_some {ℓ} : {A : Type ℓ} → Option A → Bool
is_some none = false
is_some (some a) = true

-- A reading of a bucket's state: `view b s n` is the content of the object `n` that a client `b`
-- sees, `entries b s d` the names that it lists in the directory `d`. `Accepts b` holds of the
-- clients that can upload: one whose encryption is not configured rightly fails before it calls
-- its bucket.
pub record Reading (B : Bucket) : Type 1 where
  pub view : B.Self → B.State → Str → Option Str
  pub entries : B.Self → B.State → Str → List Str
  pub Accepts : B.Self → Type 0

pub record IsReliable (B : Bucket) (V : Reading B) : Type 1 where
  pub upload-ok :
      (b : B.Self) (ctx : B.Context) (n : Str) (r : Reader) (s : B.State) (c : Str)
      → V.Accepts b
      → IsFresh r c
      → (B.upload b ctx n r s).0 ≡ ok tt
  pub view-upload :
      (b : B.Self) (ctx : B.Context) (n : Str) (r : Reader) (s : B.State) (c : Str)
      → V.Accepts b
      → IsFresh r c
      → (m : Str) → V.view b (B.upload b ctx n r s).1 m ≡ (if m == n then some c else V.view b s m)
  pub delete_present :
      (b : B.Self) (ctx : B.Context) (n : Str) (s : B.State) (c : Str)
      → V.view b s n ≡ some c
      → (B.delete b ctx n s).0 ≡ ok tt
  pub delete_absent :
      (b : B.Self) (ctx : B.Context) (n : Str) (s : B.State)
      → V.view b s n ≡ none
      → ((B.delete b ctx n s).0 ≡ ok tt)
        ⊎ ((e : Error) × ((B.delete b ctx n s).0 ≡ err e)
            × (B.is_obj_not_found_err b (some e) ≡ true))
  pub view-delete :
      (b : B.Self) (ctx : B.Context) (n : Str) (s : B.State) (m : Str)
      → V.view b (B.delete b ctx n s).1 m ≡ (if m == n then none else V.view b s m)
  pub get_present :
      (b : B.Self) (ctx : B.Context) (n : Str) (s : B.State) (c : Str)
      → V.view b s n ≡ some c
      → (r : ReadCloser) × ((B.get b ctx n s).0 ≡ ok r) × IsFresh r.reader c
  pub get_absent :
      (b : B.Self) (ctx : B.Context) (n : Str) (s : B.State)
      → V.view b s n ≡ none
      → (e : Error) × ((B.get b ctx n s).0 ≡ err e) × (B.is_obj_not_found_err b (some e) ≡ true)
  pub view-get :
      (b : B.Self) (ctx : B.Context) (n : Str) (s : B.State) (m : Str)
      → V.view b (B.get b ctx n s).1 m ≡ V.view b s m
  pub exists-view :
      (b : B.Self) (ctx : B.Context) (n : Str) (s : B.State)
      → (B.exists b ctx n s).0 ≡ ok (is_some (V.view b s n))
  pub view-exists :
      (b : B.Self) (ctx : B.Context) (n : Str) (s : B.State) (m : Str)
      → V.view b (B.exists b ctx n s).1 m ≡ V.view b s m
  pub iter-entries :
      (b : B.Self) (X : Type 0) (ctx : B.Context) (d : Str)
      (f : Str → Exec (B.State × X) (Unit {0})) (os : List B.IterOption) (s : B.State) (x : X)
      → B.iter b X ctx d f os (s, x) ≡ for_each (V.entries b s d) f (s, x)
  pub not_found-nil : (b : B.Self) → B.is_obj_not_found_err b none ≡ false
  pub instrumented-same :
      (b : B.Self) (w : (Option Error → Bool) → B.Self) (p : Option Error → Bool)
      → B.as_instrumented b ≡ some w
      → (V.Accepts b → V.Accepts (w p))
        × (V.view (w p) ≡ V.view b)
        × (V.entries (w p) ≡ V.entries b)
        × (B.is_obj_not_found_err (w p) ≡ B.is_obj_not_found_err b)
