-- ===== src/Bucket/Prefixed.antt =====
-- pkg/storage/bucket/prefixed_bucket_client.go: a client that sees the objects under a prefix.
pub mod Laws
use blockstorageingestor.Prelude.{
  ℤ, pos, negsuc, at_most, above, ℕ, zero, suc, ◌+◌, ◌-◌, ◌*◌, ◌/◌, ◌%◌, ◌^◌, ◌≤◌, ◌<◌, ◌≡◌, refl,
  sym, ap, ◌∙◌, ◌≢◌, ◌↔◌, ◌⊎◌, inl, inr, Bool, true, false, not, ◌&&◌, ◌||◌, Option, none, some,
  List, [], ◌∷◌, ◌++◌, map, append-nil, append_assoc, arith, ltb, leb, nat_beq, nat_beq_iff,
  if◌then◌else◌, Comparable, ◌==◌, nat_eq, Bool-cases, Option-cases, length, get_elem?, take, drop,
  length-append, contains, All, All-append, Lacks, select, get_elem?-append, Str, codes, str_beq,
  str_beq_iff, str_eq, str_beq_refl, str_beq-append,
}
use blockstorageingestor.Errors.{Error}
use blockstorageingestor.Exec.{Exec}
use blockstorageingestor.Go.Strings.{trim_prefix}
use blockstorageingestor.Objstore.{Reader, ReadCloser, Bucket, dir_delim}

module _ (B : Bucket) where
  pub record PrefixedBucketClient : Type 0 where
    pub bucket : B.Self
    pub prefix : Str

  abbrev pub new_prefixed_bucket_client : B.Self → Str → PrefixedBucketClient
  new_prefixed_bucket_client bucket prefix = record { bucket = bucket; prefix = prefix }

  unfoldable pub full_name : PrefixedBucketClient → Str → Str
  full_name b name = b.prefix ++ dir_delim ∷ name

  unfoldable pub close : PrefixedBucketClient → Exec B.State (Unit {0})
  close b = B.close b.bucket

  unfoldable pub upload : PrefixedBucketClient → B.Context → Str → Reader → Exec B.State (Unit {0})
  upload b ctx name r = B.upload b.bucket ctx (full_name b name) r

  unfoldable pub delete : PrefixedBucketClient → B.Context → Str → Exec B.State (Unit {0})
  delete b ctx name = B.delete b.bucket ctx (full_name b name)

  unfoldable pub name : PrefixedBucketClient → Str
  name b = B.name b.bucket

  -- The callback is handed the names without the prefix.
  unfoldable pub iter :
      PrefixedBucketClient
      → (X : Type 0) → B.Context
      → Str
      → (Str → Exec (B.State × X) (Unit {0}))
      → List B.IterOption
      → Exec (B.State × X) (Unit {0})
  iter b X ctx dir f options =
      B.iter b.bucket X ctx (full_name b dir) (λ s. f (trim_prefix s (b.prefix ++ dir_delim ∷ [])))
        options

  unfoldable pub get : PrefixedBucketClient → B.Context → Str → Exec B.State ReadCloser
  get b ctx name = B.get b.bucket ctx (full_name b name)

  unfoldable pub get_range :
      PrefixedBucketClient → B.Context → Str → ℤ → ℤ → Exec B.State ReadCloser
  get_range b ctx name off length = B.get_range b.bucket ctx (full_name b name) off length

  unfoldable pub exists : PrefixedBucketClient → B.Context → Str → Exec B.State Bool
  exists b ctx name = B.exists b.bucket ctx (full_name b name)

  unfoldable pub is_obj_not_found_err : PrefixedBucketClient → Option Error → Bool
  is_obj_not_found_err b e = B.is_obj_not_found_err b.bucket e

  unfoldable pub attributes : PrefixedBucketClient → B.Context → Str → Exec B.State B.Attributes
  attributes b ctx name = B.attributes b.bucket ctx (full_name b name)

  unfoldable pub with_expected_errs :
      PrefixedBucketClient → (Option Error → Bool) → PrefixedBucketClient
  with_expected_errs b fn = elim (B.as_instrumented b.bucket) [
    | some ib ↦ record { bucket = ib fn; prefix = b.prefix }
    | none ↦ b
  ]

  -- The client as a bucket: it has every method of `objstore.InstrumentedBucket`.
  abbrev pub prefixed : Bucket
  prefixed = record {
    Self = PrefixedBucketClient;
    State = B.State;
    Context = B.Context;
    IterOption = B.IterOption;
    Attributes = B.Attributes;
    name = name;
    close = close;
    upload = upload;
    delete = delete;
    iter = iter;
    get = get;
    get_range = get_range;
    exists = exists;
    attributes = attributes;
    is_obj_not_found_err = is_obj_not_found_err;
    as_instrumented = λ b. some (with_expected_errs b);
  }
