-- ===== src/Tsdb/BucketIndex/GlobalMarkers/Calls.antt =====
-- An upload or a delete over a store whose calls may fail: every mark keeps its copy.
use blockstorageingestor.Prelude.{
  ◌≡◌, sym, ◌≢◌, ◌⊎◌, inl, inr, Bool, true, Option, none, some, arith, if◌then◌else◌, ◌==◌, nat_eq,
  Bool-cases, Str, str_beq_iff, str_eq, str_beq_refl,
}
use blockstorageingestor.Errors.{Error, ok, err, Result, Result-cases}
use blockstorageingestor.Objstore.{Reader, Bucket, bytes_buffer}
use blockstorageingestor.Objstore.Lawful.{Reading, is_some}
use blockstorageingestor.Tsdb.BucketIndex.Markers.{BlockFormat, IsBlockFormat, markers_pathname}
use blockstorageingestor.Tsdb.BucketIndex.GlobalMarkers.{
  is_mark, global_markers, upload, delete, copy_and_upload, delete_copy,
}
use blockstorageingestor.Tsdb.BucketIndex.GlobalMarkers.Places.{
  Mark, unmarked-differs, mark_place, copy_place, is_mark-mark_place, same_copy, same_mark,
  mark_or_copy,
}

-- A store whose calls may fail. An upload that returns no error has stored something under its
-- name, a delete that returns none has removed the object; one that fails has done so or has
-- changed nothing. No call changes another object.
module _ (B : Bucket) (V : Reading B) (b : B.Self) where
  abbrev pub Puts : Str → B.State → B.State → Type 0
  Puts n s t = (c : Str) × ((m : Str) → V.view b t m ≡ (if m == n then some c else V.view b s m))

  abbrev pub Drops : Str → B.State → B.State → Type 0
  Drops n s t = (m : Str) → V.view b t m ≡ (if m == n then none else V.view b s m)

  abbrev pub Keeps : B.State → B.State → Type 0
  Keeps s t = (m : Str) → V.view b t m ≡ V.view b s m

  abbrev pub Fails : Result (Unit {0}) → Type 0
  Fails r = (e : Error) × (r ≡ err e)

pub record IsFallible (B : Bucket) (V : Reading B) : Type 0 where
  pub upload-effect :
      (b : B.Self) (ctx : B.Context) (n : Str) (r : Reader) (s : B.State)
      → let done = B.upload b ctx n r s in
        Puts B V b n s done.1 ⊎ (Keeps B V b s done.1 × Fails B V b done.0)
  pub delete-effect :
      (b : B.Self) (ctx : B.Context) (n : Str) (s : B.State)
      → let done = B.delete b ctx n s in
        Drops B V b n s done.1 ⊎ (Keeps B V b s done.1 × Fails B V b done.0)

module _ (T : BlockFormat) (W : IsBlockFormat T) where
  -- A name that the code gives to a file: a mark's, or one that is neither a mark's nor a copy's.
  pub data Name (n : Str) : Type 0 where
    mark : (p : Mark T W) → n ≡ mark_place T W p → Name n
    other :
        ((order : Bool) → is_mark T order n ≡ none)
        → ((p : Mark T W) → n ≢ copy_place T W p)
        → Name n

  -- Every mark has its copy.
  abbrev pub AreCopied : (Str → Option Str) → Type 0
  AreCopied v =
      (p : Mark T W) → is_some (v (mark_place T W p)) ≡ true → is_some (v (copy_place T W p)) ≡ true

  pub put-AreCopied :
      (v w : Str → Option Str) (n c : Str)
      → ((m : Str) → w m ≡ (if m == n then some c else v m))
      → ((p : Mark T W) → mark_place T W p ≡ n → is_some (w (copy_place T W p)) ≡ true)
      → AreCopied v
      → AreCopied w
  put-AreCopied v w n c h k i p q = elim (Bool-cases (mark_place T W p == n)) [
    | inl e ↦ k p ((str_beq_iff _ _).0 e)
    | inr e ↦
        let before : is_some (v (mark_place T W p)) ≡ true =
          ground (arith, h (mark_place T W p), e, q) in
        ground (arith, h (copy_place T W p), i p before)
  ]

  pub drop-AreCopied :
      (v w : Str → Option Str) (n : Str)
      → ((m : Str) → w m ≡ (if m == n then none else v m))
      → ((p : Mark T W) → copy_place T W p ≡ n → w (mark_place T W p) ≡ none)
      → AreCopied v
      → AreCopied w
  drop-AreCopied v w n h k i p q = elim (Bool-cases (copy_place T W p == n)) [
    | inl e ↦ let gone = k p ((str_beq_iff _ _).0 e) in ground (arith, gone, q)
    | inr e ↦
        let before : is_some (v (mark_place T W p)) ≡ true =
          ground (arith, h (mark_place T W p), q) in
        ground (arith, h (copy_place T W p), e, i p before)
  ]

  module _ (B : Bucket) (V : Reading B) (H : IsFallible B V) (b : B.Self) (ctx : B.Context) where
    keep-AreCopied :
        (s t : B.State) → Keeps B V b s t → AreCopied (V.view b s) → AreCopied (V.view b t)
    keep-AreCopied s t h i p q = rw (h (copy_place T W p)) (i p (rw (← h (mark_place T W p)) q))

    below-upload :
        (n : Str) (r : Reader) (s : B.State)
        → ((p : Mark T W) → mark_place T W p ≡ n → is_some (V.view b s (copy_place T W p)) ≡ true)
        → AreCopied (V.view b s)
        → AreCopied (V.view b (B.upload b ctx n r s).1)
    below-upload n r s k i = elim (H.upload-effect b ctx n r s) [
      | inl (c, h) ↦ put-AreCopied _ _ n c h (λ p e. ground (arith, h (copy_place T W p), k p e)) i
      | inr (h, _) ↦ keep-AreCopied _ _ h i
    ]

    below-delete :
        (n : Str) (s : B.State)
        → ((p : Mark T W) → copy_place T W p ≡ n → V.view b s (mark_place T W p) ≡ none)
        → AreCopied (V.view b s)
        → AreCopied (V.view b (B.delete b ctx n s).1)
    below-delete n s k i = elim (H.delete-effect b ctx n s) [
      | inl h ↦ drop-AreCopied _ _ n h (λ p e. ground (arith, h (mark_place T W p), k p e)) i
      | inr (h, _) ↦ keep-AreCopied _ _ h i
    ]

    module _ (no_markers : (id : T.ULID) → T.to_string id ≢ markers_pathname) (order : Bool) where
      -- after the copy has been written
      then-upload :
          (p : Mark T W) (content : Str) (s : B.State)
          → let done = B.upload b ctx (copy_place T W p) (bytes_buffer content) s in
            done.0 ≡ ok tt
            → AreCopied (V.view b done.1)
            → AreCopied
                (V.view b (B.upload b ctx (mark_place T W p) (bytes_buffer content) done.1).1)
      then-upload p content s f i =
          below-upload (mark_place T W p) (bytes_buffer content)
            (B.upload b ctx (copy_place T W p) (bytes_buffer content) s).1
            (λ q e. elim (H.upload-effect b ctx (copy_place T W p) (bytes_buffer content) s) [
              | inl (c, h) ↦
                  rw (same_mark T W q p e)
                    (ground (arith, h (copy_place T W p), str_beq_refl (copy_place T W p)))
              | inr (_, (x, h)) ↦ let no : ⊥ = cc in elim no [ ]
            ])
            i

      copy_and_upload-AreCopied :
          (p : Mark T W) (body : Result Str) (s : B.State)
          → AreCopied (V.view b s)
          → AreCopied (
              V.view b
                (copy_and_upload T order B b ctx (copy_place T W p) (mark_place T W p) body s).1)
      unfolding copy_and_upload
      copy_and_upload-AreCopied p (err e) s i = i
      copy_and_upload-AreCopied p (ok c) s i =
          let first =
            below-upload (copy_place T W p) (bytes_buffer c) s
              (λ q e. absurd (mark_or_copy T W no_markers q p e)) i in
          elim (Result-cases (B.upload b ctx (copy_place T W p) (bytes_buffer c) s).0) [
            | inl (u, f) ↦ rw (f, copy_and_upload) (then-upload p c s f first)
            | inr (e, f) ↦ rw (f, copy_and_upload) first
          ]

      upload_mark-AreCopied :
          (p : Mark T W) (r : Reader) (s : B.State)
          → AreCopied (V.view b s)
          → AreCopied (V.view b (upload T order B (global_markers b) ctx (mark_place T W p) r s).1)
      unfolding upload
      upload_mark-AreCopied p r s i =
          rw (upload, is_mark-mark_place T W order p) (copy_and_upload-AreCopied p r.unread s i)

      pub upload-AreCopied :
          (n : Str) (r : Reader) (s : B.State)
          → Name n
          → AreCopied (V.view b s)
          → AreCopied (V.view b (upload T order B (global_markers b) ctx n r s).1)
      unfolding upload
      upload-AreCopied n r s (mark p e) i = rw e (upload_mark-AreCopied p r s i)
      upload-AreCopied n r s (other none_marked no_copy) i =
          rw (upload, none_marked order)
            (below-upload n r s
              (λ p e. absurd (unmarked-differs T W order n (none_marked order) p (sym e))) i)

      -- after the mark itself is gone
      then-delete :
          (p : Mark T W) (s : B.State)
          → let done = B.delete b ctx (mark_place T W p) s in
            done.0 ≡ ok tt
            → AreCopied (V.view b done.1)
            → AreCopied (V.view b (B.delete b ctx (copy_place T W p) done.1).1)
      then-delete p s f i =
          below-delete (copy_place T W p) (B.delete b ctx (mark_place T W p) s).1
            (λ q e. elim (H.delete-effect b ctx (mark_place T W p) s) [
              | inl h ↦
                  rw (same_copy T W q p e)
                    (ground (arith, h (mark_place T W p), str_beq_refl (mark_place T W p)))
              | inr (_, (x, h)) ↦ let no : ⊥ = cc in elim no [ ]
            ])
            i

      pub delete-AreCopied :
          (n : Str) (s : B.State)
          → Name n
          → AreCopied (V.view b s)
          → AreCopied (V.view b (delete T order B (global_markers b) ctx n s).1)
      unfolding delete
      delete-AreCopied n s (mark p e) i =
          let first =
            below-delete (mark_place T W p) s
              (λ q e. absurd (mark_or_copy T W no_markers p q (sym e))) i in
          rw e (elim (Result-cases (B.delete b ctx (mark_place T W p) s).0) [
            | inl (u, f) ↦
                rw (delete, f, is_mark-mark_place T W order p, delete_copy)
                  (then-delete p s f first)
            | inr (x, f) ↦ rw (delete, f) first
          ])
      delete-AreCopied n s (other none_marked no_copy) i =
          let first = below-delete n s (λ q e. absurd (no_copy q (sym e))) i in
          elim (Result-cases (B.delete b ctx n s).0) [
            | inl (u, f) ↦ rw (delete, f, none_marked order, delete_copy) first
            | inr (x, f) ↦ rw (delete, f) first
          ]
