-- ===== src/Tsdb/BucketIndex/GlobalMarkers/Places.antt =====
-- The places of marks and of their copies: no two share one.
use blockstorageingestor.Prelude.{
  ◌≡◌, refl, sym, ap, ◌∙◌, ◌≢◌, inl, inr, Bool, false, none, some, List, [], ◌∷◌, ◌++◌,
  append_assoc, nat_eq, All, All-append, Str, str_eq,
}
use blockstorageingestor.Go.Strings.{split, join}
use blockstorageingestor.Go.Strings.Laws.{split-join, sep_injective}
use blockstorageingestor.Go.FilePath.{slash}
use blockstorageingestor.Go.FilePath.Laws.{IsPlain, All-IsPlain-Lacks}
use blockstorageingestor.Tsdb.BucketIndex.Markers.{
  BlockFormat, IsBlockFormat, dash, markers_pathname,
}
use blockstorageingestor.Tsdb.BucketIndex.GlobalMarkers.{is_mark}
use blockstorageingestor.Tsdb.BucketIndex.GlobalMarkers.Paths.{
  block_file, global_file, is_mark-block_file, dashed-IsPlain, markers-IsPlain, append-ne-nil,
}
use blockstorageingestor.Tsdb.BucketIndex.Migration.Paths.{IsMark, IsMark-IsPlain}

abbrev Same2 : List Str → List Str → Str → Str → Str → Str → Type 0
Same2 xs ys a b c d = (xs ≡ ys) × (a ≡ c) × (b ≡ d)

last_two :
    (xs ys : List Str) (a b c d : Str) → xs ++ a ∷ b ∷ [] ≡ ys ++ c ∷ d ∷ [] → Same2 xs ys a b c d
last_two [] [] a b c d e = (refl, cc, cc)
last_two [] (y ∷ []) a b c d e = let no : ⊥ = cc in elim no [ ]
last_two [] (y ∷ z ∷ ys) a b c d e =
    let h : ys ++ c ∷ d ∷ [] ≡ [] = cc in absurd (append-ne-nil ys _ c h)
last_two (x ∷ []) [] a b c d e = let no : ⊥ = cc in elim no [ ]
last_two (x ∷ z ∷ xs) [] a b c d e =
    let h : xs ++ a ∷ b ∷ [] ≡ [] = cc in absurd (append-ne-nil xs _ a h)
last_two (x ∷ xs) (y ∷ ys) a b c d e =
    let h : xs ++ a ∷ b ∷ [] ≡ ys ++ c ∷ d ∷ [] = cc in
    let k : x ≡ y = cc in let (p, q, r) = last_two xs ys a b c d h in (cc, q, r)

module _ (T : BlockFormat) (W : IsBlockFormat T) where
  -- A mark: a file of one of the two kinds in the directory of the block `id`, which stands below
  -- the components `pre`.
  pub record Mark : Type 0 where
    pub pre : List Str
    pub above : All IsPlain pre
    pub id : T.ULID
    pub file : Str
    pub kind : IsMark T file

  abbrev pub mark_place : Mark → Str
  mark_place p = block_file T W p.pre p.above p.id p.file

  abbrev pub copy_place : Mark → Str
  copy_place p = global_file T W p.pre p.above p.id p.file

  pub is_mark-mark_place :
      (order : Bool) (p : Mark) → is_mark T order (mark_place p) ≡ some (copy_place p)
  is_mark-mark_place order p = elim p.kind [
    | inl e ↦ rw e (is_mark-block_file T W p.pre p.above p.id order).0
    | inr e ↦ rw e (is_mark-block_file T W p.pre p.above p.id order).1
  ]

  copy_parts : Mark → List Str
  copy_parts p = p.pre ++ markers_pathname ∷ (T.to_string p.id ++ dash ∷ p.file) ∷ []

  split-block_file :
      (pre : List Str) (above : All IsPlain pre) (id : T.ULID) (file : Str)
      → IsPlain file
      → split (block_file T W pre above id file) slash ≡ pre ++ T.to_string id ∷ file ∷ []
  split-block_file pre above id file plain = rw append_assoc (
      split-join slash (pre ++ T.to_string id ∷ file ∷ []) (append-ne-nil pre _ _) (
        All-IsPlain-Lacks (pre ++ T.to_string id ∷ file ∷ [])
          (All-append IsPlain pre _ above (W.to_string-IsPlain id, (plain, tt)))))

  split-copy_place : (p : Mark) → split (copy_place p) slash ≡ copy_parts p
  unfolding copy_parts
  split-copy_place p =
      let file = IsMark-IsPlain T W p.file p.kind in
      let id = W.to_string-IsPlain p.id in
      split-join slash (copy_parts p) (append-ne-nil p.pre _ _) (
        All-IsPlain-Lacks (copy_parts p) (
          All-append IsPlain p.pre _ p.above
            (markers-IsPlain, (dashed-IsPlain (T.to_string p.id) p.file id.lacks file.lacks, tt))))

  -- Two marks whose copies share a name are one.
  pub same_copy : (p q : Mark) → copy_place p ≡ copy_place q → mark_place p ≡ mark_place q
  unfolding copy_parts
  same_copy p q e =
      let parts = sym (split-copy_place p) ∙ ap (λ t. split t slash) e ∙ split-copy_place q in
      let (above, _, name) = last_two p.pre q.pre _ _ _ _ parts in
      let (id, file) =
        sep_injective dash (T.to_string p.id) (T.to_string q.id) p.file q.file
          (W.to_string-Lacks p.id) (W.to_string-Lacks q.id) name in
      ap (λ t. join t slash) (cc)

  -- Two marks that share a name are one.
  pub same_mark : (p q : Mark) → mark_place p ≡ mark_place q → copy_place p ≡ copy_place q
  same_mark p q e =
      let h : some (copy_place p) ≡ some (copy_place q) =
        sym (is_mark-mark_place false p)
        ∙ ap (λ n. is_mark T false n) e
        ∙ is_mark-mark_place false q in
      cc

  pub unmarked-differs :
      (order : Bool) (n : Str) → is_mark T order n ≡ none → (p : Mark) → n ≢ mark_place p
  unmarked-differs order n h p e =
      let h : none ≡ some (copy_place p) =
        sym h ∙ ap (λ n. is_mark T order n) e ∙ is_mark-mark_place order p in
      let no : ⊥ = cc in no

  module _ (no_markers : (id : T.ULID) → T.to_string id ≢ markers_pathname) where
    -- No file in a block's directory has the name of a copy.
    pub block_or_copy :
        (pre : List Str) (above : All IsPlain pre) (id : T.ULID) (file : Str) (q : Mark)
        → IsPlain file
        → block_file T W pre above id file ≢ copy_place q
    unfolding copy_parts
    block_or_copy pre above id file q plain e =
        let parts =
          sym (split-block_file pre above id file plain)
          ∙ ap (λ t. split t slash) e
          ∙ split-copy_place q in
        no_markers id (last_two pre q.pre _ _ _ _ parts).1

    pub mark_or_copy : (p q : Mark) → mark_place p ≢ copy_place q
    mark_or_copy p q = block_or_copy p.pre p.above p.id p.file q (IsMark-IsPlain T W p.file p.kind)
