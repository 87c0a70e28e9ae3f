-- ===== src/Tsdb/BucketIndex/Migration/Laws.antt =====
-- What the migration leaves.
use blockstorageingestor.Prelude.{
  ◌≡◌, refl, sym, ◌∙◌, inl, inr, Bool, none, some, List, [], ◌∷◌, ◌++◌, map, ◌==◌, nat_eq,
  Option-cases, Str, str_eq,
}
use blockstorageingestor.Errors.{Error, ok}
use blockstorageingestor.Exec.{for_each}
use blockstorageingestor.Go.FilePath.{path_join}
use blockstorageingestor.Objstore.{Bucket, ReadCloser}
use blockstorageingestor.Objstore.Lawful.{Reading, IsReliable}
use blockstorageingestor.Tsdb.BucketIndex.Markers.{BlockFormat, markers_map}
use blockstorageingestor.Tsdb.BucketIndex.Migration.{
  add_block, find_block, copy_mark, copy_marks, copy_blocks, migrate,
}
use blockstorageingestor.Tsdb.BucketIndex.Migration.Copies.{
  if_same, View, copy_one, copy_all, copy_all-append,
}

-- What is opened can be closed without an error.
abbrev pub Closes : (U : Bucket) → U.Context → U.Self → Str → U.State → Type 0
Closes U ctx u n s = (r : ReadCloser) → (U.get u ctx n s).0 ≡ ok r → r.close ≡ ok tt

module _ (T : BlockFormat) where
  -- the blocks among the entries of a listing
  abbrev pub blocks_of : List T.ULID → List Str → List T.ULID
  blocks_of blocks [] = blocks
  blocks_of blocks (e ∷ es) = blocks_of (add_block T blocks (T.is_block_dir e)) es

  -- the path of a mark in its block's directory
  abbrev pub mark_path : T.ULID → Str → Str
  mark_path id mark = path_join (T.to_string id ∷ mark ∷ [])

  abbrev pub mark_copies : T.ULID → List (Str × (T.ULID → Str)) → List (Str × Str)
  mark_copies id = map (λ mark. (mark_path id mark.0, mark.1 id))

  abbrev pub block_copies : (T.ULID → Bool) → List T.ULID → List (Str × Str)
  block_copies order [] = []
  block_copies order (id ∷ blocks) =
      mark_copies id (markers_map T (order id)) ++ block_copies order blocks

  module _ (U : Bucket) (V : Reading U) (R : IsReliable U V) (u : U.Self) (ctx : U.Context)
      (a : V.Accepts u) (closes : (n : Str) (s : U.State) → Closes U ctx u n s) where
    -- a state with no error, whose view is known
    record Copied (v : View) (x : U.State × List Error) : Type 0 where
      no_error : x.1 ≡ []
      seen : (m : Str) → V.view u x.0 m ≡ v m

    copy_mark-Copied :
        (src dst : Str) (v : View) (x : U.State × List Error)
        → Copied v x
        → Copied (copy_one (src, dst) v) (copy_mark T U u ctx src dst x)
    unfolding copy_mark
    copy_mark-Copied src dst v x h = elim (Option-cases (V.view u x.0 src)) [
      | inl e ↦
          let (f, p, q) = R.get_absent u ctx src x.0 e in
          let missing : v src ≡ none = sym (h.seen src) ∙ e in
          rw (copy_mark, p, q)
            (record {
              no_error = h.no_error;
              seen = λ m.
                  R.view-get u ctx src x.0 m
                  ∙ h.seen m
                  ∙ rw missing (sym (if_same (m == dst) (v m)));
            })
      | inr (c, e) ↦
          let (r, p, fresh) = R.get_present u ctx src x.0 c e in
          let there : v src ≡ some c = sym (h.seen src) ∙ e in
          let t = (U.get u ctx src x.0).1 in
          rw
            (
              copy_mark,
              p,
              R.not_found-nil u,
              closes src x.0 r p,
              R.upload-ok u ctx dst r.reader t c a fresh,
            )
            (record {
              no_error = h.no_error;
              seen = λ m.
                  R.view-upload u ctx dst r.reader t c a fresh m
                  ∙ rw (there, R.view-get u ctx src x.0 m, h.seen m) refl;
            })
    ]

    copy_marks-Copied :
        (id : T.ULID) (marks : List (Str × (T.ULID → Str))) (v : View) (x : U.State × List Error)
        → Copied v x
        → Copied (copy_all (mark_copies id marks) v) (copy_marks T U u ctx id marks x)
    unfolding copy_marks
    copy_marks-Copied id [] v x h = h
    copy_marks-Copied id ((mark, file) ∷ marks) v x h =
        copy_marks-Copied id marks (copy_one (mark_path id mark, file id) v)
          (copy_mark T U u ctx (mark_path id mark) (file id) x)
          (copy_mark-Copied (mark_path id mark) (file id) v x h)

    copy_blocks-Copied :
        (order : T.ULID → Bool) (blocks : List T.ULID) (v : View) (x : U.State × List Error)
        → Copied v x
        → Copied (copy_all (block_copies order blocks) v) (copy_blocks T U u ctx order blocks x)
    unfolding copy_blocks
    copy_blocks-Copied order [] v x h = h
    copy_blocks-Copied order (id ∷ blocks) v x h =
        let marks = mark_copies id (markers_map T (order id)) in
        rw (copy_all-append marks (block_copies order blocks) v) (
          copy_blocks-Copied order blocks (copy_all marks v)
            (copy_marks T U u ctx id (markers_map T (order id)) x)
            (copy_marks-Copied id (markers_map T (order id)) v x h))

    find_block-each :
        (es : List Str) (s : U.State) (blocks : List T.ULID)
        → for_each es (find_block T U u ctx) (s, blocks) ≡ (ok tt, (s, blocks_of blocks es))
    unfolding for_each
    find_block-each [] s blocks = refl
    find_block-each (e ∷ es) s blocks = find_block-each es s (add_block T blocks (T.is_block_dir e))

    -- the migration as a list of copies
    pub migrate-copies :
        (multi : List Error → Error) (order : T.ULID → Bool) (s : U.State)
        → let out = migrate T U u ctx multi order s in
          let copies = block_copies order (blocks_of [] (V.entries u s [])) in
          (out.0 ≡ ok tt) × ((m : Str) → V.view u out.1 m ≡ copy_all copies (V.view u s) m)
    unfolding migrate
    migrate-copies multi order s =
        let blocks = blocks_of [] (V.entries u s []) in
        let done =
          copy_blocks-Copied order blocks (V.view u s) (s, [])
            (record { no_error = refl; seen = λ m. refl }) in
        rw
          (
            migrate,
            R.iter-entries u (List T.ULID) ctx [] (find_block T U u ctx) [] s [],
            find_block-each (V.entries u s []) s [],
            done.no_error,
          )
          (refl, done.seen)
