-- ===== src/Tsdb/BucketIndex/Migration/Paths.antt =====
-- Where the marks of listed blocks are found after the migration.
use blockstorageingestor.Prelude.{
  ◌≡◌, refl, sym, ap, ◌∙◌, ◌≢◌, ◌⊎◌, inl, inr, Bool, true, false, ◌||◌, Option, none, some, List,
  [], ◌∷◌, ◌++◌, arith, if◌then◌else◌, ◌==◌, nat_eq, Bool-cases, contains, All, Str, str_beq_iff,
  str_eq, str_beq_refl,
}
use blockstorageingestor.Errors.{Error, ok}
use blockstorageingestor.Go.FilePath.{slash}
use blockstorageingestor.Go.FilePath.Laws.{IsPlain, path_join-join}
use blockstorageingestor.Go.Strings.{has_prefix, split_2, join}
use blockstorageingestor.Go.Strings.Laws.{split_2-append}
use blockstorageingestor.Objstore.{Bucket}
use blockstorageingestor.Objstore.Lawful.{Reading, IsReliable}
use blockstorageingestor.Tsdb.BucketIndex.Markers.{
  BlockFormat, IsBlockFormat, dash, markers_pathname, mark_filepath, markers_map,
  block_deletion_mark_filepath, no_compact_mark_filepath,
}
use blockstorageingestor.Tsdb.BucketIndex.Markers.Laws.{split-mark_filepath}
use blockstorageingestor.Tsdb.BucketIndex.Migration.{add_block, migrate}
use blockstorageingestor.Tsdb.BucketIndex.Migration.Copies.{
  copy_all-others, copy_all-IsSource, IsSource, goes_to, or_keep,
}
use blockstorageingestor.Tsdb.BucketIndex.Migration.Laws.{
  Closes, blocks_of, mark_path, block_copies, mark_copies, migrate-copies,
}

goes_to-append :
    (b : Str) (ps qs : List (Str × Str)) → goes_to b (ps ++ qs) ≡ (goes_to b ps || goes_to b qs)
goes_to-append b [] qs = refl
goes_to-append b (p ∷ ps) qs = ground (arith, goes_to-append b ps qs)

-- the directory of the copies
abbrev pub markers_dir : Str
markers_dir = markers_pathname ++ slash ∷ []

module _ (T : BlockFormat) where
  abbrev pub IsMark : Str → Type 0
  IsMark f = (f ≡ T.deletion_mark_filename) ⊎ (f ≡ T.no_compact_mark_filename)

  abbrev Has : T.ULID → List T.ULID → Type 0
  Has id [] = ⊥
  Has id (x ∷ xs) = (x ≡ id) ⊎ Has id xs

  Has-append : (id : T.ULID) (xs ys : List T.ULID) → Has id xs → Has id (xs ++ ys)
  Has-append id [] ys h = elim h [ ]
  Has-append id (x ∷ xs) ys (inl e) = inl e
  Has-append id (x ∷ xs) ys (inr h) = inr (Has-append id xs ys h)

  Has-last : (id : T.ULID) (xs : List T.ULID) → Has id (xs ++ id ∷ [])
  Has-last id [] = inl refl
  Has-last id (x ∷ xs) = inr (Has-last id xs)

  Has-add_block :
      (id : T.ULID) (xs : List T.ULID) (o : Option T.ULID) → Has id xs → Has id (add_block T xs o)
  Has-add_block id xs none h = h
  Has-add_block id xs (some j) h = Has-append id xs (j ∷ []) h

  Has-blocks_of :
      (id : T.ULID) (es : List Str) (xs : List T.ULID) → Has id xs → Has id (blocks_of T xs es)
  Has-blocks_of id [] xs h = h
  Has-blocks_of id (e ∷ es) xs h =
      Has-blocks_of id es (add_block T xs (T.is_block_dir e))
        (Has-add_block id xs (T.is_block_dir e) h)

  Has-contains :
      (id : T.ULID) (e : Str) (es : List Str) (xs : List T.ULID)
      → contains es e ≡ true
      → T.is_block_dir e ≡ some id
      → Has id (blocks_of T xs es)
  Has-contains id e [] xs h k = let no : ⊥ = cc in elim no [ ]
  Has-contains id e (x ∷ es) xs h k = elim (Bool-cases (x == e)) [
    | inl p ↦
        let o : T.is_block_dir x ≡ some id = rw ((str_beq_iff x e).0 p) k in
        rw o (Has-blocks_of id es (xs ++ id ∷ []) (Has-last id xs))
    | inr p ↦ Has-contains id e es (add_block T xs (T.is_block_dir x)) (ground (arith, p, h)) k
  ]

  goes_to-marks :
      (order : Bool) (id : T.ULID) (f : Str)
      → IsMark f
      → goes_to (mark_filepath T f id) (mark_copies T id (markers_map T order)) ≡ true
  unfolding block_deletion_mark_filepath no_compact_mark_filepath
  goes_to-marks false id f (inl e) =
      rw e (ground (arith, str_beq_refl (mark_filepath T T.deletion_mark_filename id)))
  goes_to-marks false id f (inr e) =
      rw e (ground (arith, str_beq_refl (mark_filepath T T.no_compact_mark_filename id)))
  goes_to-marks true id f (inl e) =
      rw e (ground (arith, str_beq_refl (mark_filepath T T.deletion_mark_filename id)))
  goes_to-marks true id f (inr e) =
      rw e (ground (arith, str_beq_refl (mark_filepath T T.no_compact_mark_filename id)))

  goes_to-Has :
      (order : T.ULID → Bool) (id : T.ULID) (f : Str) (blocks : List T.ULID)
      → IsMark f
      → Has id blocks
      → goes_to (mark_filepath T f id) (block_copies T order blocks) ≡ true
  goes_to-Has order id f [] m h = elim h [ ]
  goes_to-Has order id f (x ∷ blocks) m (inl e) = rw (← e) (
      ground (
        arith,
        goes_to-marks (order x) x f m,
        goes_to-append (mark_filepath T f x) (mark_copies T x (markers_map T (order x)))
            (block_copies T order blocks),
      ))
  goes_to-Has order id f (x ∷ blocks) m (inr h) = ground (
    arith,
    goes_to-Has order id f blocks m h,
    goes_to-append (mark_filepath T f id) (mark_copies T x (markers_map T (order x)))
        (block_copies T order blocks),
  )

  -- a predicate on all copies follows from the copies of marks
  All-block_copies :
      (P : Str × Str → Type 0) (order : T.ULID → Bool)
      → ((id : T.ULID) (f : Str) → IsMark f → P (mark_path T id f, mark_filepath T f id))
      → (blocks : List T.ULID) → All P (block_copies T order blocks)
  unfolding block_deletion_mark_filepath no_compact_mark_filepath
  All-block_copies P order h [] = tt
  All-block_copies P order h (id ∷ blocks) = elim (Bool-cases (order id)) [
    | inl e ↦ rw e (h id _ (inr refl), (h id _ (inl refl), All-block_copies P order h blocks))
    | inr e ↦ rw e (h id _ (inl refl), (h id _ (inr refl), All-block_copies P order h blocks))
  ]

  module _ (W : IsBlockFormat T) where
    pub IsMark-IsPlain : (f : Str) → IsMark f → IsPlain f
    IsMark-IsPlain f (inl e) = rw e (W.deletion_mark-IsPlain)
    IsMark-IsPlain f (inr e) = rw e (W.no_compact_mark-IsPlain)

  module _ (W : IsBlockFormat T)
      (no_markers : (id : T.ULID) → T.to_string id ≢ markers_pathname) where
    mark_path-slash :
        (id : T.ULID) (f : Str) → IsMark f → mark_path T id f ≡ T.to_string id ++ slash ∷ f
    unfolding join
    mark_path-slash id f m =
        path_join-join (T.to_string id ∷ []) (f ∷ []) (λ e. cc) (λ e. cc)
          (W.to_string-IsPlain id, tt) (IsMark-IsPlain W f m, tt)

    same_source :
        (id jd : T.ULID) (f g : Str)
        → mark_filepath T g jd ≡ mark_filepath T f id
        → mark_path T jd g ≡ mark_path T id f
    same_source id jd f g e =
        let h =
          sym (split-mark_filepath T W g jd)
          ∙ ap (λ t. split_2 t dash) e
          ∙ split-mark_filepath T W f id in
        let name : T.to_string jd ≡ T.to_string id = cc (h) in
        let kind : g ≡ f = cc (h) in rw (name, kind) refl

    apart_source : (id jd : T.ULID) (f g : Str) → IsMark f → mark_path T id f ≢ mark_filepath T g jd
    unfolding mark_filepath
    apart_source id jd f g m e =
        let h =
          sym (split_2-append slash (T.to_string id) f (W.to_string-IsPlain id).lacks)
          ∙ ap (λ t. split_2 t slash) (sym (mark_path-slash id f m) ∙ e)
          ∙ split_2-append slash markers_pathname (T.to_string jd ++ dash ∷ g) (omega arith) in
        no_markers id (cc (h))

    block_copies-IsSource :
        (order : T.ULID → Bool) (blocks : List T.ULID) (id : T.ULID) (f : Str)
        → IsMark f
        → IsSource (mark_path T id f) (mark_filepath T f id) (block_copies T order blocks)
    block_copies-IsSource order blocks id f m =
        All-block_copies _ order (λ jd g n. (same_source id jd f g, apart_source id jd f g m))
          blocks

    others-block_copies :
        (order : T.ULID → Bool) (blocks : List T.ULID) (m : Str)
        → has_prefix m markers_dir ≡ false
        → All (λ p. (m == p.1) ≡ false) (block_copies T order blocks)
    unfolding mark_filepath has_prefix
    others-block_copies order blocks m h =
        All-block_copies _ order (λ id f n. ground (arith, h, str_beq_iff m (mark_filepath T f id)))
          blocks

    module _ (U : Bucket) (V : Reading U) (R : IsReliable U V) (u : U.Self) (ctx : U.Context)
        (a : V.Accepts u) (closes : (n : Str) (s : U.State) → Closes U ctx u n s) where
      pub migrate-marks :
          (multi : List Error → Error) (order : T.ULID → Bool) (s : U.State) (id : T.ULID) (f : Str)
          (e : Str)
          → IsMark f
          → contains (V.entries u s []) e ≡ true
          → T.is_block_dir e ≡ some id
          → let out = migrate T U u ctx multi order s in
            (out.0 ≡ ok tt)
            × (V.view u out.1 (mark_filepath T f id)
                ≡ or_keep (V.view u s (mark_path T id f)) (V.view u s (mark_filepath T f id)))
            × ((m : Str)
                → V.view u out.1 m
                  ≡ (if has_prefix m markers_dir then V.view u out.1 m else V.view u s m))
      migrate-marks multi order s id f e k l i =
          let blocks = blocks_of T [] (V.entries u s []) in
          let (fine, seen) = migrate-copies T U V R u ctx a closes multi order s in
          let there =
            goes_to-Has order id f blocks k (Has-contains id e (V.entries u s []) [] l i) in
          (
            fine,
            seen (mark_filepath T f id)
                ∙ copy_all-IsSource (block_copies T order blocks) (V.view u s) (mark_path T id f)
                    (mark_filepath T f id) (block_copies-IsSource order blocks id f k)
                ∙ rw there refl,
            λ m. elim (Bool-cases (has_prefix m markers_dir)) [
              | inl h ↦ rw h refl
              | inr h ↦ rw h (
                  seen m
                  ∙ copy_all-others (block_copies T order blocks) (V.view u s) m
                      (others-block_copies order blocks m h))
            ],
          )
