-- ===== src/Tsdb/BucketIndex/GlobalMarkers/Paths.antt =====
-- Where the copy of a mark stands.
use blockstorageingestor.Prelude.{
  ◌≡◌, sym, ap, ◌∙◌, ◌≢◌, Bool, true, false, Option, none, some, List, [], ◌∷◌, ◌++◌, arith,
  if◌then◌else◌, ◌==◌, nat_eq, All, All-append, Lacks, Str, str_beq_iff, str_eq, str_beq_refl,
}
use blockstorageingestor.Go.Strings.{join}
use blockstorageingestor.Go.Strings.Laws.{join-append}
use blockstorageingestor.Go.FilePath.{slash, base, dir, dot, dot_dot}
use blockstorageingestor.Go.FilePath.Laws.{
  IsPlain, base-append, base-IsPlain, dir-join, path_join-up, clean-join,
}
use blockstorageingestor.Tsdb.BucketIndex.Markers.{
  BlockFormat, IsBlockFormat, dash, markers_pathname, mark_filepath, block_deletion_mark_filepath,
  no_compact_mark_filepath,
}
use blockstorageingestor.Tsdb.BucketIndex.GlobalMarkers.{global_path, is_mark}

dash-not_dot : (p q : Str) → (p ++ dash ∷ q ≢ dot) × (p ++ dash ∷ q ≢ dot_dot)
dash-not_dot [] q = (ground arith, ground arith)
dash-not_dot (a ∷ []) q = (ground arith, ground arith)
dash-not_dot (a ∷ b ∷ []) q = (ground arith, ground arith)
dash-not_dot (a ∷ b ∷ c ∷ p) q = (ground arith, ground arith)

dashed-ne-nil : (p q : Str) → p ++ dash ∷ q ≢ []
dashed-ne-nil [] q = cc
dashed-ne-nil (a ∷ p) q = cc

-- The file name of a mark's copy is a plain component.
pub dashed-IsPlain : (p q : Str) → Lacks slash p → Lacks slash q → IsPlain (p ++ dash ∷ q)
dashed-IsPlain p q h k = record {
  not_empty = dashed-ne-nil p q;
  not_dot = (dash-not_dot p q).0;
  not_dot_dot = (dash-not_dot p q).1;
  lacks = All-append (λ c. c ≢ slash) p (dash ∷ q) h (omega arith, k);
}

pub markers-IsPlain : IsPlain markers_pathname
markers-IsPlain = record { not_empty = cc; not_dot = cc; not_dot_dot = cc; lacks = omega arith }

-- A name of plain components ends in its last one.
base-join : (ps : List Str) (b : Str) → IsPlain b → base (join (ps ++ b ∷ []) slash) ≡ b
unfolding join
base-join [] b h = base-IsPlain b h
base-join (p ∷ ps) b h =
    rw (join-append slash (p ∷ ps) (b ∷ []) (cc) (cc)) (base-append (join (p ∷ ps) slash) b h)

dir-join-concat :
    (ps : List Str) (b : Str)
    → ps ≢ []
    → All IsPlain ps
    → IsPlain b
    → dir (join (ps ++ b ∷ []) slash) ≡ join ps slash
unfolding join
dir-join-concat ps b k l h = rw (join-append slash ps (b ∷ []) k (cc)) (dir-join ps b k l h.lacks)

concat-ne-nil : (ps : List Str) (p : Str) → ps ++ p ∷ [] ≢ []
concat-ne-nil [] p = cc
concat-ne-nil (q ∷ ps) p = cc

pub append-ne-nil : (ps qs : List Str) (p : Str) → ps ++ p ∷ qs ≢ []
append-ne-nil [] qs p = cc
append-ne-nil (q ∷ ps) qs p = cc

module _ (T : BlockFormat) (W : IsBlockFormat T) (pre : List Str) (l : All IsPlain pre)
    (id : T.ULID) where
  -- the file `f` in the directory of the block, and its copy in the directory of marks
  abbrev pub block_file : Str → Str
  block_file f = join ((pre ++ T.to_string id ∷ []) ++ f ∷ []) slash

  abbrev pub global_file : Str → Str
  global_file f = join (pre ++ markers_pathname ∷ (T.to_string id ++ dash ∷ f) ∷ []) slash

  global_path-block :
      (f : Str)
      → IsPlain f
      → global_path T (block_file f) (mark_filepath T f) (T.is_block_dir (dir (block_file f)))
        ≡ some (global_file f)
  unfolding global_path mark_filepath join
  global_path-block f h =
      let plain = W.to_string-IsPlain id in
      let above = All-append IsPlain pre (T.to_string id ∷ []) l (plain, tt) in
      let file : All IsPlain (markers_pathname ∷ (T.to_string id ++ dash ∷ f) ∷ []) =
        (markers-IsPlain, (dashed-IsPlain (T.to_string id) f plain.lacks h.lacks, tt)) in
      rw
        (
          dir-join-concat (pre ++ T.to_string id ∷ []) f (concat-ne-nil pre (T.to_string id)) above
              h,
          W.is_block_dir-base,
          base-join pre (T.to_string id) plain,
          W.parse-to_string id,
          global_path,
          dir-join-concat (pre ++ T.to_string id ∷ []) f (concat-ne-nil pre (T.to_string id)) above
              h,
          path_join-up pre (markers_pathname ∷ (T.to_string id ++ dash ∷ f) ∷ []) (T.to_string id)
              (cc) plain l file,
        )
        (ap some (
          clean-join (pre ++ markers_pathname ∷ (T.to_string id ++ dash ∷ f) ∷ [])
            (append-ne-nil pre _ _) (All-append IsPlain pre _ l file)))

  pub base-block : (f : Str) → IsPlain f → base (block_file f) ≡ f
  base-block f h = base-join (pre ++ T.to_string id ∷ []) f h

  mark_met :
      (f : Str) (rest : Option Str)
      → IsPlain f
      → (if base (block_file f) == f
          then global_path T
              (block_file f)
              (mark_filepath T f)
              (T.is_block_dir (dir (block_file f)))
          else rest)
        ≡ some (global_file f)
  mark_met f rest h = rw (base-block f h, str_beq_refl f) (global_path-block f h)

  mark_passed :
      (f g : Str) (here rest : Option Str)
      → IsPlain f
      → f ≢ g
      → (if base (block_file f) == g then here else rest) ≡ rest
  mark_passed f g here rest h d = rw (base-block f h) (ground (arith, str_beq_iff f g, d))

  -- For lawful identifiers and file names, and a block's directory at any depth below plain
  -- components: a mark in the directory is recognised, in whichever order the map of marks is
  -- walked, and its copy stands beside the block's directory, in the directory of marks.
  pub is_mark-block_file :
      (order : Bool)
      → (is_mark T order (block_file T.deletion_mark_filename)
          ≡ some (global_file T.deletion_mark_filename))
        × (is_mark T order (block_file T.no_compact_mark_filename)
            ≡ some (global_file T.no_compact_mark_filename))
  unfolding is_mark block_deletion_mark_filepath no_compact_mark_filepath
  is_mark-block_file false = (
    mark_met T.deletion_mark_filename _ W.deletion_mark-IsPlain,
    mark_passed T.no_compact_mark_filename T.deletion_mark_filename _ _ W.no_compact_mark-IsPlain
          (λ e. W.marks_differ (sym e))
        ∙ mark_met T.no_compact_mark_filename _ W.no_compact_mark-IsPlain,
  )
  is_mark-block_file true = (
    mark_passed T.deletion_mark_filename T.no_compact_mark_filename _ _ W.deletion_mark-IsPlain
          W.marks_differ
        ∙ mark_met T.deletion_mark_filename _ W.deletion_mark-IsPlain,
    mark_met T.no_compact_mark_filename _ W.no_compact_mark-IsPlain,
  )

  -- A file of another name is no mark, in whichever order the map is walked.
  pub is_mark-other :
      (order : Bool) (name : Str)
      → base name ≢ T.deletion_mark_filename
      → base name ≢ T.no_compact_mark_filename
      → is_mark T order name ≡ none
  unfolding is_mark
  is_mark-other false name h k = ground (
    arith,
    str_beq_iff (base name) T.deletion_mark_filename,
    str_beq_iff (base name) T.no_compact_mark_filename,
  )
  is_mark-other true name h k = ground (
    arith,
    str_beq_iff (base name) T.deletion_mark_filename,
    str_beq_iff (base name) T.no_compact_mark_filename,
  )
