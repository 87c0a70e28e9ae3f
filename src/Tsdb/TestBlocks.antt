-- ===== src/Tsdb/TestBlocks.antt =====
-- pkg/storage/tsdb/testutil: blocks and marks that tests put into a bucket.
pub mod Laws
use blockstorageingestor.Prelude.{
  ℤ, pos, negsuc, at_most, above, ℕ, zero, suc, ◌+◌, ◌-◌, ◌*◌, ◌/◌, ◌%◌, ◌^◌, ◌≤◌, ◌<◌, ◌≡◌, refl,
  sym, ap, ◌∙◌, ◌≢◌, ◌↔◌, ◌⊎◌, inl, inr, Bool, true, false, not, ◌&&◌, ◌||◌, Option, none, some,
  List, [], ◌∷◌, ◌++◌, map, append-nil, append_assoc, arith, ltb, leb, nat_beq, nat_beq_iff,
  if◌then◌else◌, Comparable, ◌==◌, nat_eq, Bool-cases, Option-cases, length, get_elem?, take, drop,
  length-append, contains, All, All-append, Lacks, select, get_elem?-append, Str, codes, str_beq,
  str_beq_iff, str_eq, str_beq_refl, str_beq-append,
}
use blockstorageingestor.Errors.{Error, Result, ok, err}
use blockstorageingestor.Objstore.{Bucket, bytes_reader}
use blockstorageingestor.Bucket.Filesystem.{FilesystemConfig, new_filesystem_bucket}
use blockstorageingestor.Go.FilePath.{slash}
use blockstorageingestor.Tsdb.BucketIndex.Markers.{BlockFormat}

-- `uint64(x)` of an `int64`
to_uint64 : ℤ → ℕ
to_uint64 (pos n) = n
to_uint64 (negsuc n) = 2 ^ 64 - suc n

-- How a helper of a test ends: it returns, it fails the test at `require.NoError`, or it panics.
pub data Ending {ℓ} (A : Type ℓ) : Type ℓ where
  passes : A → Ending A
  fails : Error → Ending A
  aborts : Str → Ending A

module _ (T : BlockFormat) where
  -- The fields of `tsdb.BlockMeta`, `metadata.DeletionMark` and `metadata.NoCompactMark` that are set.
  pub record BlockMeta : Type 0 where
    pub version : ℕ
    pub ulid : T.ULID
    pub min_time : ℤ
    pub max_time : ℤ
    pub level : ℕ
    pub sources : List T.ULID

  pub record DeletionMark : Type 0 where
    pub id : T.ULID
    pub deletion_time : ℤ
    pub version : ℕ

  pub record NoCompactMark : Type 0 where
    pub id : T.ULID
    pub version : ℕ
    pub no_compact_time : ℤ
    pub reason : Str

  -- `json.Marshal` on them, the constants of Thanos, `ulid.MustNew` on `uint64(maxT)` with
  -- what the source of randomness gives (it panics on a time above 48 bits, with the error's text),
  -- and Unix times: now, and a minute ago.
  pub record Library : Type 0 where
    pub marshal_meta : BlockMeta → Result Str
    pub marshal_deletion : DeletionMark → Result Str
    pub marshal_no_compact : NoCompactMark → Result Str
    pub deletion_version : ℕ
    pub no_compact_version : ℕ
    pub out_of_order_chunks : Str
    pub new_ulid : ℕ → T.ULID ⊎ Str
    pub now : ℤ
    pub a_minute_ago : ℤ

  -- `fmt.Sprintf("%s/%s/%s", userID, id, file)`
  unfoldable pub place : Str → T.ULID → Str → Str
  place user id file = user ++ slash ∷ (T.to_string id ++ slash ∷ file)

  module _ (B : Bucket) (L : Library) (b : B.Self) (ctx : B.Context) where
    -- `require.NoError(t, bucket.Upload(...))`, and then what follows it
    uploaded :
        {A : Type 0} → Str → Str → (B.State → Ending A × B.State) → B.State → Ending A × B.State
    uploaded name content next s =
        let (r, t) = B.upload b ctx name (bytes_reader content) s in
        elim r [ err e ↦ (fails e, t) | ok u ↦ next t ]

    abbrev pub cannot_marshal : Str
    cannot_marshal = codes "failed to marshal mocked block meta"

    -- the object of a mark, with what `Marshal` gave
    marked : {A : Type 0} → Str → A → Result Str → B.State → Ending A × B.State
    unfolding uploaded
    marked name mark (err e) s = (aborts cannot_marshal, s)
    marked name mark (ok content) s = uploaded name content (λ t. (passes mark, t)) s

    abbrev pub mocked_meta : T.ULID → ℤ → ℤ → BlockMeta
    mocked_meta id min_t max_t = record {
      version = 1;
      ulid = id;
      min_time = min_t;
      max_time = max_t;
      level = 1;
      sources = id ∷ [];
    }

    with_content : Str → BlockMeta → Result Str → B.State → Ending BlockMeta × B.State
    unfolding uploaded
    with_content user meta (err e) s = (aborts cannot_marshal, s)
    with_content user meta (ok content) s =
        uploaded (place user meta.ulid (codes "meta.json")) content
          (uploaded (place user meta.ulid (codes "index")) [] (λ t. (passes meta, t))) s

    unfoldable pub mock_storage_block : Str → ℤ → ℤ → B.State → Ending BlockMeta × B.State
    unfolding with_content to_uint64
    mock_storage_block user min_t max_t s = elim (L.new_ulid (to_uint64 max_t)) [
      | inl id ↦
          let meta = mocked_meta id min_t max_t in with_content user meta (L.marshal_meta meta) s
      | inr message ↦ (aborts message, s)
    ]

    unfoldable pub mock_storage_deletion_mark :
        Str → BlockMeta → B.State → Ending DeletionMark × B.State
    unfolding marked
    mock_storage_deletion_mark user meta =
        let mark : DeletionMark = record {
          id = meta.ulid;
          deletion_time = L.a_minute_ago;
          version = L.deletion_version;
        } in
        marked (place user meta.ulid T.deletion_mark_filename) mark (L.marshal_deletion mark)

    unfoldable pub mock_storage_non_compaction_mark :
        Str → BlockMeta → B.State → Ending NoCompactMark × B.State
    unfolding marked
    mock_storage_non_compaction_mark user meta =
        let mark : NoCompactMark = record {
          id = meta.ulid;
          version = L.no_compact_version;
          no_compact_time = L.now;
          reason = L.out_of_order_chunks;
        } in
        marked (place user meta.ulid T.no_compact_mark_filename) mark (L.marshal_no_compact mark)

-- `PrepareFilesystemBucket`: with `os.MkdirTemp`, the constructor of Thanos and its metrics; the
-- bucket with its directory, and the directory that is removed when the test ends.
required :
    {A B : Type 0} → Result A → (A → Ending B × Option Str) → Option Str → Ending B × Option Str
required (err e) next removed = (fails e, removed)
required (ok a) next removed = next a

unfoldable pub prepare_filesystem_bucket :
    {Client : Type 0}
    → Result Str
    → (Str → Result Client)
    → (Client → Client)
    → Ending (Client × Str) × Option Str
unfolding required
prepare_filesystem_bucket mkdir_temp new_bucket with_metrics =
    required mkdir_temp
      (λ dir.
        required (new_filesystem_bucket new_bucket (record { directory = dir }))
          (λ bkt. (passes (with_metrics bkt, dir), some dir)) (some dir))
      none
