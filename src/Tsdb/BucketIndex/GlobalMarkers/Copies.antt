-- ===== src/Tsdb/BucketIndex/GlobalMarkers/Copies.antt =====
-- A mark and its copy are written and deleted together.
use blockstorageingestor.Prelude.{
  ◌≡◌, refl, sym, ap, ◌∙◌, inl, inr, Bool, false, ◌||◌, Option, none, some, arith, if◌then◌else◌,
  ◌==◌, nat_eq, Str, str_eq,
}
use blockstorageingestor.Errors.{Error, ok, err}
use blockstorageingestor.Objstore.{Reader, Bucket, bytes_buffer}
use blockstorageingestor.Objstore.Lawful.{Reading, IsReliable, IsFresh}
use blockstorageingestor.Tsdb.BucketIndex.Markers.{BlockFormat}
use blockstorageingestor.Tsdb.BucketIndex.GlobalMarkers.{
  is_mark, global_markers, copy_and_upload, upload, unless_missing, delete_copy, delete,
  with_expected_errs,
}

-- An update at `g` and then at `n`, read at `m`.
twice {ℓ} :
    {A : Type ℓ} (m n g : Str) (x y : A)
    → (if m == n then x else if m == g then x else y) ≡ (if m == n || m == g then x else y)
twice m n g x y = ground arith

pub twice_back {ℓ} :
    {A : Type ℓ} (m n g : Str) (x y : A)
    → (if m == g then x else if m == n then x else y) ≡ (if m == n || m == g then x else y)
twice_back m n g x y = ground arith

IsFresh-unread : (r : Reader) (c : Str) → IsFresh r c → r.unread ≡ ok c
IsFresh-unread r c (inl e) = ap (λ (r : Reader). r.unread) e
IsFresh-unread r c (inr e) = ap (λ (r : Reader). r.unread) e

module _ (T : BlockFormat) (order : Bool) (B : Bucket) (b : B.Self) (ctx : B.Context)
    (name : Str) where
  -- Whatever the bucket below: a file that is no mark is uploaded and deleted as below. A mark is
  -- read whole and its copy is written first; where that fails, the upload ends with that error
  -- and the mark itself is not written. A delete that fails ends before the copy is reached.
  pub global_markers_errors :
      (r : Reader) (s : B.State)
      → (is_mark T order name ≡ none
          → (upload T order B (global_markers b) ctx name r s ≡ B.upload b ctx name r s)
            × ((B.delete b ctx name s).0 ≡ ok tt
                → delete T order B (global_markers b) ctx name s
                  ≡ (ok tt, (B.delete b ctx name s).1)))
        × ((g c : Str) (e : Error)
            → is_mark T order name ≡ some g
            → r.unread ≡ ok c
            → (B.upload b ctx g (bytes_buffer c) s).0 ≡ err e
            → upload T order B (global_markers b) ctx name r s
              ≡ (err e, (B.upload b ctx g (bytes_buffer c) s).1))
        × ((e : Error)
            → (B.delete b ctx name s).0 ≡ err e
            → delete T order B (global_markers b) ctx name s ≡ (err e, (B.delete b ctx name s).1))
  unfolding upload delete
  global_markers_errors r s = (
    (λ p. (rw (p, upload) refl, λ q. rw (q, delete, p, delete_copy) refl)),
    (λ g c e p u q. rw (p, upload, u, copy_and_upload, q) refl),
    (λ e q. rw (q, delete) refl),
  )

  unless_missing-delete :
      {V : Reading B} (R : IsReliable B V) (g : Str) (t : B.State) (o : Option Str)
      → V.view b t g ≡ o
      → unless_missing T order B b (B.delete b ctx g t).0 ≡ ok tt
  unfolding unless_missing
  unless_missing-delete R g t (some c) e = rw (R.delete_present b ctx g t c e) refl
  unless_missing-delete R g t none e = elim (R.delete_absent b ctx g t e) [
    | inl p ↦ rw p refl
    | inr (e', p, q) ↦ rw (p, unless_missing, q) refl
  ]

  module _ (V : Reading B) (R : IsReliable B V) (g : Str)
      (marked : is_mark T order name ≡ some g) where
    -- Over a reliable store that accepts uploads, the upload of a mark succeeds, and stores its
    -- content under the mark's name and under the copy's, and changes no other object.
    pub upload_mark :
        (r : Reader) (c : Str) (s : B.State)
        → V.Accepts b
        → IsFresh r c
        → let done = upload T order B (global_markers b) ctx name r s in
          (done.0 ≡ ok tt)
          × ((m : Str) → V.view b done.1 m ≡ (if m == name || m == g then some c else V.view b s m))
    unfolding upload
    upload_mark r c s a f =
        let t = (B.upload b ctx g (bytes_buffer c) s).1 in
        rw
          (
            marked,
            upload,
            IsFresh-unread r c f,
            copy_and_upload,
            R.upload-ok b ctx g (bytes_buffer c) s c a (inr refl),
          )
          (
            R.upload-ok b ctx name (bytes_buffer c) t c a (inr refl),
            λ m.
                R.view-upload b ctx name (bytes_buffer c) t c a (inr refl) m
                ∙ rw (R.view-upload b ctx g (bytes_buffer c) s c a (inr refl) m)
                    (twice m name g (some c) (V.view b s m)),
          )

    -- Over a reliable store, the delete of a mark that is there succeeds, whether its copy is there
    -- or not; the mark and the copy are then gone, and no other object has changed.
    pub delete_mark :
        (c : Str) (s : B.State)
        → V.view b s name ≡ some c
        → let done = delete T order B (global_markers b) ctx name s in
          (done.0 ≡ ok tt)
          × ((m : Str) → V.view b done.1 m ≡ (if m == name || m == g then none else V.view b s m))
    unfolding delete
    delete_mark c s e =
        let t = (B.delete b ctx name s).1 in
        rw (delete, R.delete_present b ctx name s c e, marked, delete_copy)
          (
            unless_missing-delete R g t (V.view b t g) refl,
            λ m.
                R.view-delete b ctx g t m
                ∙ rw (R.view-delete b ctx name s m) (twice_back m name g none (V.view b s m)),
          )

    -- A bucket that is instrumented (its type assertion gives `w`) is asked for the same bucket
    -- with a filter of expected errors: over a reliable store that accepts uploads, the bucket that
    -- comes back stores a mark under its name and changes nothing else, so that the copy, a
    -- different name, stays as it was.
    pub with_expected_errs-uncopied :
        (w : (Option Error → Bool) → B.Self) (fn : Option Error → Bool) (r : Reader) (c : Str)
        (s : B.State)
        → B.as_instrumented b ≡ some w
        → V.Accepts b
        → IsFresh r c
        → (g == name) ≡ false
        → let done = upload T order B (with_expected_errs T order B b fn) ctx name r s in
          (done.0 ≡ ok tt)
          × ((m : Str) → V.view b done.1 m ≡ (if m == name then some c else V.view b s m))
          × (V.view b done.1 g ≡ V.view b s g)
    unfolding upload with_expected_errs
    with_expected_errs-uncopied w fn r c s i a f d =
        let (acc, v, _, _) = R.instrumented-same b w fn i in
        rw (i, upload)
          (
            R.upload-ok (w fn) ctx name r s c (acc a) f,
            λ m. rw (sym v) (R.view-upload (w fn) ctx name r s c (acc a) f m),
            rw (sym v) (R.view-upload (w fn) ctx name r s c (acc a) f g ∙ rw d refl),
          )
