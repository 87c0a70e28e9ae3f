-- ===== src/Bucket/S3/Retries.antt =====
-- pkg/storage/bucket/s3/bucket_client.go, `BucketWithRetries`: a client that tries each call again
-- while it fails, as long as its backoff goes on.
pub mod Laws
pub mod Recovery
pub mod Uploads
use blockstorageingestor.Prelude.{
  ℤ, pos, negsuc, at_most, above, ℕ, zero, suc, ◌+◌, ◌-◌, ◌*◌, ◌/◌, ◌%◌, ◌^◌, ◌≤◌, ◌<◌, ◌≡◌, refl,
  sym, ap, ◌∙◌, ◌≢◌, ◌↔◌, ◌⊎◌, inl, inr, Bool, true, false, not, ◌&&◌, ◌||◌, Option, none, some,
  List, [], ◌∷◌, ◌++◌, map, append-nil, append_assoc, arith, ltb, leb, nat_beq, nat_beq_iff,
  if◌then◌else◌, Comparable, ◌==◌, nat_eq, Bool-cases, Option-cases, length, get_elem?, take, drop,
  length-append, contains, All, All-append, Lacks, select, get_elem?-append, Str, codes, str_beq,
  str_beq_iff, str_eq, str_beq_refl, str_beq-append,
}
use blockstorageingestor.Errors.{Error, Result, ok, err}
use blockstorageingestor.Exec.{Exec}
use blockstorageingestor.Objstore.{Reader, ReadCloser, Bucket}

-- The package `backoff` of Cortex. A value of `Retries` is a backoff with what its context will do:
-- `ongoing` is false once the context is done or the attempts are used up. `wait` sleeps and counts
-- an attempt. `new` takes the context, the least and the greatest wait and the greatest number of
-- attempts; a backoff that is made with 0 goes on as long as its context.
pub record Backoff (Context : Type 0) : Type 1 where
  pub Retries : Type 0
  pub new : Context → ℤ → ℤ → ℕ → Retries
  pub ongoing : Retries → Bool
  pub wait : Retries → Retries
  pub err : Retries → Option Error

-- What an upload by the bucket leaves of the reader: how far it has read, which depends on where
-- the upload has failed.
pub record Consumption (B : Bucket) : Type 0 where
  pub left : B.Self → B.Context → Str → Reader → B.State → Reader

-- The values of the named results before a first call: a nil reader, a zero `ObjectAttributes`.
pub record Zeros (B : Bucket) : Type 0 where
  pub reader : ReadCloser
  pub attributes : B.Attributes

abbrev pub default_operation_retries : ℕ
default_operation_retries = 5

-- Durations are in nanoseconds.
abbrev pub default_retry_min_backoff : ℤ
default_retry_min_backoff = pos (5 * 1000000000)

abbrev pub default_retry_max_backoff : ℤ
default_retry_max_backoff = pos (60 * 1000000000)

module _ (B : Bucket) (L : Backoff B.Context) where
  pub record BucketWithRetries : Type 0 where
    pub bucket : B.Self
    pub operation_retries : ℕ
    pub retry_min_backoff : ℤ
    pub retry_max_backoff : ℤ

  -- what `NewBucketClient` returns over a bucket
  abbrev pub new_bucket_client : B.Self → BucketWithRetries
  new_bucket_client b = record {
    bucket = b;
    operation_retries = default_operation_retries;
    retry_min_backoff = default_retry_min_backoff;
    retry_max_backoff = default_retry_max_backoff;
  }

  module _ {T A : Type 0} (zero_value : A) (not_found : Error → Bool) (f : Exec T A) where
    -- after the loop, with the last error
    unfoldable pub ended : L.Retries → Option Error → Result A
    ended r (some e) = err e
    ended r none = elim (L.err r) [ some e ↦ err e | none ↦ ok zero_value ]

    -- The loop `for retries.Ongoing()`, at most as often as its first argument says.
    unfoldable pub retry_loop : ℕ → L.Retries → Option Error → Exec T A
    unfolding ended
    retry_loop zero r last t = (ended r last, t)
    retry_loop (suc n) r last t = elim (L.ongoing r) [
      | false ↦ (ended r last, t)
      | true ↦
          let (o, u) = f t in
          elim o [
            | ok a ↦ (ok a, u)
            | err e ↦ elim (not_found e) [
              | true ↦ (err e, u)
              | false ↦ retry_loop n (L.wait r) (some e) u
            ]
          ]
    ]

  unfoldable pub start : BucketWithRetries → B.Context → L.Retries
  start b ctx = L.new ctx b.retry_min_backoff b.retry_max_backoff b.operation_retries

  -- `retry`, whose callback may change more than the store: a state `T`. The loop makes one round
  -- more than the attempts configured. With none configured the code goes on until its context is
  -- done: such a client is not made (`new_bucket_client`).
  unfoldable pub retry : {T A : Type 0} → BucketWithRetries → B.Context → A → Exec T A → Exec T A
  unfolding retry_loop start
  retry b ctx zero_value f =
      retry_loop zero_value (λ e. B.is_obj_not_found_err b.bucket (some e)) f
        (suc b.operation_retries) (start b ctx) none

  module _ (C : Consumption B) where
    -- `b.bucket.Upload` on the reader, which it consumes
    unfoldable pub upload_from : B.Self → B.Context → Str → Exec (B.State × Reader) (Unit {0})
    upload_from b ctx name (s, r) =
        let (o, t) = B.upload b ctx name r s in (o, (t, C.left b ctx name r s))

    -- The callback: `rs.Seek(0, io.SeekStart)`, and the upload of what can then be read. A reader
    -- that cannot seek does not get here.
    unfoldable pub seek_and_upload : B.Self → B.Context → Str → Exec (B.State × Reader) (Unit {0})
    unfolding upload_from
    seek_and_upload b ctx name (s, r) = elim r.seek_start [
      | none ↦ upload_from b ctx name (s, r)
      | some (err e) ↦ (err e, (s, r))
      | some (ok content) ↦ upload_from b ctx name (s, record r { unread = content })
    ]

    -- The reader is shared by the attempts: each finds it as the last one has left it.
    unfoldable pub upload : BucketWithRetries → B.Context → Str → Reader → Exec B.State (Unit {0})
    unfolding retry seek_and_upload
    upload b ctx name r s = elim r.seek_start [
      | none ↦ B.upload b.bucket ctx name r s
      | some sought ↦
          let (o, t) = retry b ctx tt (seek_and_upload b.bucket ctx name) (s, r) in (o, t.0)
    ]

  module _ (C : Consumption B) (Z : Zeros B) where
    -- The client as a bucket. It is not instrumented: it has no `WithExpectedErrs`.
    abbrev pub bucket_with_retries : Bucket
    bucket_with_retries = record {
      Self = BucketWithRetries;
      State = B.State;
      Context = B.Context;
      IterOption = B.IterOption;
      Attributes = B.Attributes;
      name = λ b. B.name b.bucket;
      close = λ b. B.close b.bucket;
      upload = upload C;
      delete = λ b ctx name. retry b ctx tt (B.delete b.bucket ctx name);
      iter = λ b X ctx dir f options. retry b ctx tt (B.iter b.bucket X ctx dir f options);
      get = λ b ctx name. retry b ctx Z.reader (B.get b.bucket ctx name);
      get_range =
          λ b ctx name off len. retry b ctx Z.reader (B.get_range b.bucket ctx name off len);
      exists = λ b ctx name. retry b ctx false (B.exists b.bucket ctx name);
      attributes = λ b ctx name. retry b ctx Z.attributes (B.attributes b.bucket ctx name);
      is_obj_not_found_err = λ b. B.is_obj_not_found_err b.bucket;
      as_instrumented = λ b. none;
    }
