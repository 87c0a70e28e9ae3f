-- ===== src/Tsdb/BucketIndex/GlobalMarkers.antt =====
-- pkg/storage/tsdb/bucketindex/markers_bucket_client.go: a client that keeps a copy of each block's
-- marks in the tenant's directory of marks.
pub mod Paths
pub mod Copies
pub mod Places
pub mod Calls
pub mod Runs
pub mod Mirror
use blockstorageingestor.Prelude.{
  ℤ, pos, negsuc, at_most, above, ℕ, zero, suc, ◌+◌, ◌-◌, ◌*◌, ◌/◌, ◌%◌, ◌^◌, ◌≤◌, ◌<◌, ◌≡◌, refl,
  sym, ap, ◌∙◌, ◌≢◌, ◌↔◌, ◌⊎◌, inl, inr, Bool, true, false, not, ◌&&◌, ◌||◌, Option, none, some,
  List, [], ◌∷◌, ◌++◌, map, append-nil, append_assoc, arith, ltb, leb, nat_beq, nat_beq_iff,
  if◌then◌else◌, Comparable, ◌==◌, nat_eq, Bool-cases, Option-cases, length, get_elem?, take, drop,
  length-append, contains, All, All-append, Lacks, select, get_elem?-append, Str, codes, str_beq,
  str_beq_iff, str_eq, str_beq_refl, str_beq-append,
}
use blockstorageingestor.Errors.{Error, Result, ok, err}
use blockstorageingestor.Exec.{Exec}
use blockstorageingestor.Go.FilePath.{slash, base, dir, clean, path_join}
use blockstorageingestor.Objstore.{Reader, ReadCloser, Bucket, bytes_buffer}
use blockstorageingestor.Tsdb.BucketIndex.Markers.{BlockFormat, markers_map}

module _ (T : BlockFormat) where
  global_path : Str → (T.ULID → Str) → Option T.ULID → Option Str
  global_path name file none = none
  global_path name file (some id) = some (clean (path_join (dir name ∷ codes "../" ∷ file id ∷ [])))

  -- The loop over `MarkersMap`: the first mark of that name decides.
  is_mark_in : Str → List (Str × (T.ULID → Str)) → Option Str
  is_mark_in name [] = none
  is_mark_in name ((mark, file) ∷ marks) =
      let rest = is_mark_in name marks in
      if base name == mark then global_path name file (T.is_block_dir (dir name)) else rest

  -- `isMark`, with the order in which the map is walked
  unfoldable pub is_mark : Bool → Str → Option Str
  unfolding is_mark_in global_path
  is_mark order name = is_mark_in name (markers_map T order)

module _ (T : BlockFormat) (order : Bool) (B : Bucket) where
  -- What the methods of this client return as a bucket: `globalMarkersBucket` over its parent, or
  -- a client of the parent's own kind.
  pub data Client : Type 0 where
    global_markers : B.Self → Client
    bare : B.Self → Client

  abbrev pub bucket_with_global_markers : B.Self → Client
  bucket_with_global_markers b = global_markers b

  copy_and_upload : B.Self → B.Context → Str → Str → Result Str → Exec B.State (Unit {0})
  copy_and_upload b ctx global name (err e) s = (err e, s)
  copy_and_upload b ctx global name (ok body) s =
      let (r, t) = B.upload b ctx global (bytes_buffer body) s in
      elim r [ err e ↦ (err e, t) | ok u ↦ B.upload b ctx name (bytes_buffer body) t ]

  unfoldable pub upload : Client → B.Context → Str → Reader → Exec B.State (Unit {0})
  unfolding copy_and_upload
  upload (bare b) ctx name r = B.upload b ctx name r
  upload (global_markers b) ctx name r = elim (is_mark T order name) [
    | none ↦ B.upload b ctx name r
    | some global ↦ copy_and_upload b ctx global name r.unread
  ]

  -- An error is kept, unless it says that the object is not there.
  unless_missing : B.Self → Result (Unit {0}) → Result (Unit {0})
  unless_missing b (ok u) = ok tt
  unless_missing b (err e) = if not (B.is_obj_not_found_err b (some e)) then err e else ok tt

  delete_copy : B.Self → B.Context → Option Str → Exec B.State (Unit {0})
  unfolding unless_missing
  delete_copy b ctx none s = (ok tt, s)
  delete_copy b ctx (some global) s =
      let (r, t) = B.delete b ctx global s in (unless_missing b r, t)

  unfoldable pub delete : Client → B.Context → Str → Exec B.State (Unit {0})
  unfolding delete_copy
  delete (bare b) ctx name s = B.delete b ctx name s
  delete (global_markers b) ctx name s =
      let (r, t) = B.delete b ctx name s in
      elim r [ err e ↦ (err e, t) | ok u ↦ delete_copy b ctx (is_mark T order name) t ]

  -- All other methods are the parent's.
  unfoldable pub parent : Client → B.Self
  parent (bare b) = b
  parent (global_markers b) = b

  unfoldable pub with_expected_errs : B.Self → (Option Error → Bool) → Client
  with_expected_errs b fn = elim (B.as_instrumented b) [
    | some ib ↦ bare (ib fn)
    | none ↦ global_markers b
  ]

  unfoldable pub as_instrumented : Client → Option ((Option Error → Bool) → Client)
  unfolding with_expected_errs
  as_instrumented (global_markers b) = some (with_expected_errs b)
  as_instrumented (bare b) = elim (B.as_instrumented b) [
    | none ↦ none
    | some ib ↦ some (λ fn. bare (ib fn))
  ]

  -- The client as a bucket.
  abbrev pub global_markers_bucket : Bucket
  global_markers_bucket = record {
    Self = Client;
    State = B.State;
    Context = B.Context;
    IterOption = B.IterOption;
    Attributes = B.Attributes;
    name = λ b. B.name (parent b);
    close = λ b. B.close (parent b);
    upload = upload;
    delete = delete;
    iter = λ b. B.iter (parent b);
    get = λ b. B.get (parent b);
    get_range = λ b. B.get_range (parent b);
    exists = λ b. B.exists (parent b);
    attributes = λ b. B.attributes (parent b);
    is_obj_not_found_err = λ b. B.is_obj_not_found_err (parent b);
    as_instrumented = as_instrumented;
  }
