-- ===== src/Tsdb/BucketIndex/GlobalMarkers/Runs.antt =====
-- What holds of marks and copies after any sequence of uploads and deletes through the client.
use blockstorageingestor.Prelude.{above, ◌≡◌, sym, ◌∙◌, ◌≢◌, Bool, List, nat_eq, All, Str, str_eq}
use blockstorageingestor.Objstore.{Reader, Bucket}
use blockstorageingestor.Objstore.Lawful.{Reading}
use blockstorageingestor.Tsdb.BucketIndex.Markers.{BlockFormat, IsBlockFormat, markers_pathname}
use blockstorageingestor.Tsdb.BucketIndex.GlobalMarkers.{global_markers, upload, delete}
use blockstorageingestor.Tsdb.BucketIndex.GlobalMarkers.Calls.{
  other, IsFallible, Name, AreCopied, upload-AreCopied, delete-AreCopied,
}
use blockstorageingestor.Tsdb.BucketIndex.GlobalMarkers.Paths.{
  block_file, is_mark-other, base-block,
}
use blockstorageingestor.Tsdb.BucketIndex.GlobalMarkers.Places.{block_or_copy}
use blockstorageingestor.Go.FilePath.Laws.{IsPlain}

module _ (T : BlockFormat) (W : IsBlockFormat T) where
  -- The other files of a block have such names too.
  pub block_file-Name :
      ((id : T.ULID) → T.to_string id ≢ markers_pathname)
      → (pre : List Str) (above : All IsPlain pre) (id : T.ULID) (file : Str) → IsPlain file
      → file ≢ T.deletion_mark_filename
      → file ≢ T.no_compact_mark_filename
      → Name T W (block_file T W pre above id file)
  block_file-Name no_markers pre above id file plain d n =
      other
        (λ order.
          is_mark-other T W pre above id order _
            (λ e. d (sym (base-block T W pre above id file plain) ∙ e))
            (λ e. n (sym (base-block T W pre above id file plain) ∙ e)))
        (λ q. block_or_copy T W no_markers pre above id file q plain)

  -- A call of the client: an upload of a reader of the allowed kind, or a delete, under a name of
  -- those that the code gives to files, in any context, with the map of marks walked in any
  -- order.
  module _ (B : Bucket) (b : B.Self) (Allowed : Reader → Type 0) where
    pub data Step (s t : B.State) : Type 0 where
      uploads :
          (order : Bool) (ctx : B.Context) (n : Str) (r : Reader)
          → Allowed r
          → Name T W n
          → t ≡ (upload T order B (global_markers b) ctx n r s).1
          → Step s t
      deletes :
          (order : Bool) (ctx : B.Context) (n : Str)
          → Name T W n
          → t ≡ (delete T order B (global_markers b) ctx n s).1
          → Step s t

    pub data Reach (s : B.State) : B.State → Type 0 where
      here : Reach s s
      next : {t u : B.State} → Reach s t → Step t u → Reach s u

    module _ (V : Reading B) (H : IsFallible B V)
        (no_markers : (id : T.ULID) → T.to_string id ≢ markers_pathname) where
      Step-AreCopied :
          (s t : B.State) → Step s t → AreCopied T W (V.view b s) → AreCopied T W (V.view b t)
      Step-AreCopied s t (uploads order ctx n r allowed name e) i =
          rw e (upload-AreCopied T W B V H b ctx no_markers order n r s name i)
      Step-AreCopied s t (deletes order ctx n name e) i =
          rw e (delete-AreCopied T W B V H b ctx no_markers order n s name i)

      -- Over a store whose calls may fail, and from a state in which every block's mark has its
      -- global copy: in each state that uploads and deletes through the client reach, whichever of
      -- their calls of the store have failed, every mark still has its copy. The names are those of
      -- marks in the directories of blocks, below plain path components, or names that the client
      -- takes for no mark and that no copy has, so a call under the name of a copy is no such step;
      -- no block is named like the directory of copies.
      pub Reach-AreCopied :
          (s t : B.State) → Reach s t → AreCopied T W (V.view b s) → AreCopied T W (V.view b t)
      Reach-AreCopied s t here i = i
      Reach-AreCopied s t (next r step) i = Step-AreCopied _ _ step (Reach-AreCopied s _ r i)
