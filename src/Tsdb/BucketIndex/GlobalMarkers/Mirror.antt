-- ===== src/Tsdb/BucketIndex/GlobalMarkers/Mirror.antt =====
-- Over a reliable store, a mark and its copy are always the same.
use blockstorageingestor.Prelude.{
  ◌≡◌, refl, sym, ◌∙◌, ◌≢◌, inl, inr, Bool, true, false, ◌||◌, Option, none, some, arith,
  if◌then◌else◌, ◌==◌, nat_eq, Bool-cases, Str, str_beq, str_beq_iff, str_eq,
}
use blockstorageingestor.Errors.{Error, err, Result-cases}
use blockstorageingestor.Objstore.{Reader, Bucket}
use blockstorageingestor.Objstore.Lawful.{Reading, IsReliable, IsFresh}
use blockstorageingestor.Tsdb.BucketIndex.Markers.{BlockFormat, IsBlockFormat, markers_pathname}
use blockstorageingestor.Tsdb.BucketIndex.GlobalMarkers.{
  global_markers, upload, delete, delete_copy,
}
use blockstorageingestor.Tsdb.BucketIndex.GlobalMarkers.Copies.{upload_mark, twice_back}
use blockstorageingestor.Tsdb.BucketIndex.GlobalMarkers.Places.{
  Mark, unmarked-differs, mark_place, copy_place, is_mark-mark_place, same_copy, same_mark,
  mark_or_copy,
}
use blockstorageingestor.Tsdb.BucketIndex.GlobalMarkers.Calls.{Name, mark, other}
use blockstorageingestor.Tsdb.BucketIndex.GlobalMarkers.Runs.{
  Step, uploads, deletes, Reach, here, next,
}
use blockstorageingestor.Tsdb.BucketIndex.GlobalMarkers.Runs.{
  Step, uploads, deletes, Reach, here, next,
}

str_beq-false : (s t : Str) → s ≢ t → str_beq s t ≡ false
str_beq-false s t d = ground (arith, str_beq_iff s t, d)

module _ (T : BlockFormat) (W : IsBlockFormat T)
    (no_markers : (id : T.ULID) → T.to_string id ≢ markers_pathname) where
  -- Every mark has the content of its copy, and is missing where its copy is.
  abbrev pub AreMirrored : (Str → Option Str) → Type 0
  AreMirrored v = (p : Mark T W) → v (mark_place T W p) ≡ v (copy_place T W p)

  both-AreMirrored :
      (p : Mark T W) (v w : Str → Option Str) (x : Option Str)
      → ((m : Str) → w m ≡ (if m == mark_place T W p || m == copy_place T W p then x else v m))
      → AreMirrored v
      → AreMirrored w
  both-AreMirrored p v w x h i q = elim (Bool-cases (mark_place T W q == mark_place T W p)) [
    | inl e ↦
        let k = same_mark T W q p ((str_beq_iff _ _).0 e) in
        ground (
          arith,
          h (mark_place T W q),
          h (copy_place T W q),
          str_beq_iff (copy_place T W q) (copy_place T W p),
        )
    | inr e ↦
        let a = str_beq-false _ _ (mark_or_copy T W no_markers q p) in
        let c =
          str_beq-false (copy_place T W q) (mark_place T W p)
            (λ k. mark_or_copy T W no_markers p q (sym k)) in
        let d = str_beq-false (copy_place T W q) (copy_place T W p) (λ k.
          let k' : (mark_place T W q == mark_place T W p) ≡ true =
            (str_beq_iff _ _).1 (same_copy T W q p k) in
          let no : ⊥ = cc in no) in
        ground (arith, h (mark_place T W q), h (copy_place T W q), i q, a, c, d, e)
  ]

  one-AreMirrored :
      (n : Str) (v w : Str → Option Str) (x : Option Str)
      → ((m : Str) → w m ≡ (if m == n then x else v m))
      → ((p : Mark T W) → n ≢ mark_place T W p)
      → ((p : Mark T W) → n ≢ copy_place T W p)
      → AreMirrored v
      → AreMirrored w
  one-AreMirrored n v w x h a c i q =
      let d = str_beq-false (mark_place T W q) n (λ k. a q (sym k)) in
      let f = str_beq-false (copy_place T W q) n (λ k. c q (sym k)) in
      ground (arith, h (mark_place T W q), h (copy_place T W q), i q, d, f)

  module _ (B : Bucket) (V : Reading B) (R : IsReliable B V) (b : B.Self) (ctx : B.Context)
      (order : Bool) where
    -- Where a delete fails, there was nothing to delete.
    failed-missing :
        (n : Str) (s : B.State) (e : Error) (o : Option Str)
        → (B.delete b ctx n s).0 ≡ err e
        → V.view b s n ≡ o
        → o ≡ none
    failed-missing n s e none f h = refl
    failed-missing n s e (some c) f h =
        let g = R.delete_present b ctx n s c h in let no : ⊥ = cc in elim no [ ]

    missing-drop :
        (v : Str → Option Str) (m n g : Str)
        → v g ≡ none
        → (if m == n then none else v m) ≡ (if m == n || m == g then none else v m)
    missing-drop v m n g h = elim (Bool-cases (m == g)) [
      | inl e ↦ let k : v m ≡ none = rw ((str_beq_iff m g).0 e) h in ground (arith, e, k)
      | inr e ↦ ground (arith, e)
    ]

    -- The delete of a mark that is there, or of one that is not, as its copy.
    delete_mark-view :
        (p : Mark T W) (s : B.State)
        → V.view b s (mark_place T W p) ≡ V.view b s (copy_place T W p)
        → (m : Str)
        → V.view b (delete T order B (global_markers b) ctx (mark_place T W p) s).1 m
          ≡ (if m == mark_place T W p || m == copy_place T W p then none else V.view b s m)
    unfolding delete
    delete_mark-view p s i m =
        let t = (B.delete b ctx (mark_place T W p) s).1 in
        elim (Result-cases (B.delete b ctx (mark_place T W p) s).0) [
          | inl (u, f) ↦
              rw (delete, f, is_mark-mark_place T W order p, delete_copy)
                (R.view-delete b ctx (copy_place T W p) t m
                  ∙ rw (R.view-delete b ctx (mark_place T W p) s m)
                      (twice_back m (mark_place T W p) (copy_place T W p) none (V.view b s m)))
          | inr (e, f) ↦
              rw (delete, f)
                (R.view-delete b ctx (mark_place T W p) s m
                  ∙ missing-drop (V.view b s) m _ _ (sym i ∙ failed-missing _ s e _ f refl))
        ]

    upload-AreMirrored :
        (n : Str) (r : Reader) (c : Str) (s : B.State)
        → V.Accepts b
        → IsFresh r c
        → Name T W n
        → AreMirrored (V.view b s)
        → AreMirrored (V.view b (upload T order B (global_markers b) ctx n r s).1)
    unfolding upload
    upload-AreMirrored n r c s a f (mark p e) i = rw e (
        both-AreMirrored p _ _ (some c)
          (upload_mark T order B b ctx (mark_place T W p) V R (copy_place T W p)
            (is_mark-mark_place T W order p) r c s a f).1
          i)
    upload-AreMirrored n r c s a f (other none_marked no_copy) i =
        rw (upload, none_marked order)
          (one-AreMirrored n _ _ (some c) (R.view-upload b ctx n r s c a f)
            (unmarked-differs T W order n (none_marked order)) no_copy i)

    delete-AreMirrored :
        (n : Str) (s : B.State)
        → Name T W n
        → AreMirrored (V.view b s)
        → AreMirrored (V.view b (delete T order B (global_markers b) ctx n s).1)
    unfolding delete
    delete-AreMirrored n s (mark p e) i =
        rw e (both-AreMirrored p _ _ none (delete_mark-view p s (i p)) i)
    delete-AreMirrored n s (other none_marked no_copy) i =
        let last =
          one-AreMirrored n _ _ none (R.view-delete b ctx n s)
            (unmarked-differs T W order n (none_marked order)) no_copy i in
        elim (Result-cases (B.delete b ctx n s).0) [
          | inl (u, f) ↦ rw (delete, f, none_marked order, delete_copy) last
          | inr (x, f) ↦ rw (delete, f) last
        ]

  module _ (B : Bucket) (V : Reading B) (R : IsReliable B V) (b : B.Self) (a : V.Accepts b) where
    -- A reader that nothing has been read from.
    abbrev pub Fresh : Reader → Type 0
    Fresh r = (c : Str) × IsFresh r c

    Step-AreMirrored :
        (s t : B.State)
        → Step T W B b Fresh s t
        → AreMirrored (V.view b s)
        → AreMirrored (V.view b t)
    Step-AreMirrored s t (uploads order ctx n r (c, f) name e) i =
        rw e (upload-AreMirrored B V R b ctx order n r c s a f name i)
    Step-AreMirrored s t (deletes order ctx n name e) i =
        rw e (delete-AreMirrored B V R b ctx order n s name i)

    -- Over a reliable store that accepts uploads, and from a state in which every block's mark has
    -- the content of its global copy and is missing where the copy is: uploads of fresh readers and
    -- deletes through the client reach only such states. The names are those of marks in the
    -- directories of blocks, below plain path components, or names that the client takes for no
    -- mark and that no copy has, so a call under the name of a copy is no such step; no block is
    -- named like the directory of copies.
    pub Reach-AreMirrored :
        (s t : B.State)
        → Reach T W B b Fresh s t
        → AreMirrored (V.view b s)
        → AreMirrored (V.view b t)
    Reach-AreMirrored s t here i = i
    Reach-AreMirrored s t (next r step) i = Step-AreMirrored _ _ step (Reach-AreMirrored s _ r i)
