-- ===== src/Bucket/Sse/Laws.antt =====
-- With a configuration that can be built, an SSE client is a reliable object store if the bucket
-- below is.
use blockstorageingestor.Prelude.{
  ◌≡◌, refl, inl, inr, Bool, Option, none, some, nat_eq, Option-cases, Str, str_eq,
}
use mathlib.Core.Option.{some-injective}
use blockstorageingestor.Errors.{Error, Result, ok, err}
use blockstorageingestor.Objstore.{Reader, Bucket}
use blockstorageingestor.Objstore.Lawful.{Reading, IsReliable}
use blockstorageingestor.Bucket.S3.Config.{Library}
use blockstorageingestor.Bucket.S3.Config.Laws.{Succeeds}
use blockstorageingestor.Bucket.Sse
use blockstorageingestor.Bucket.Sse.{
  SseBucketClient, get_custom_s3_sse_config, sse_bucket, with_expected_errs,
}

module _ (L : Library) (B : Bucket) (with_sse : B.Context → L.ServerSide → B.Context) where
  -- the context that an upload is made with
  abbrev pub upload_context : SseBucketClient L B with_sse → B.Context → B.Context
  upload_context b ctx = elim (get_custom_s3_sse_config L B with_sse b) [
    | err e ↦ ctx
    | ok none ↦ ctx
    | ok (some sse) ↦ with_sse ctx sse
  ]

  pub upload-Succeeds :
      (b : SseBucketClient L B with_sse) (ctx : B.Context) (n : Str) (r : Reader) (s : B.State)
      → Succeeds (get_custom_s3_sse_config L B with_sse b)
      → Sse.upload L B with_sse b ctx n r s ≡ B.upload b.bucket (upload_context b ctx) n r s
  unfolding Sse.upload
  upload-Succeeds b ctx n r s h = split (get_custom_s3_sse_config L B with_sse b) refl h
    where
      split :
          (c : Result (Option L.ServerSide))
          → get_custom_s3_sse_config L B with_sse b ≡ c
          → Succeeds c
          → Sse.upload L B with_sse b ctx n r s ≡ B.upload b.bucket (upload_context b ctx) n r s
      split (ok none) e h = rw (e, Sse.upload, upload_context) refl
      split (ok (some sse)) e h = rw (e, Sse.upload, upload_context) refl
      split (err x) e h = absurd h

  same_config :
      (b : SseBucketClient L B with_sse) (p : Option Error → Bool)
      → get_custom_s3_sse_config L B with_sse (with_expected_errs L B with_sse b p)
        ≡ get_custom_s3_sse_config L B with_sse b
  unfolding with_expected_errs get_custom_s3_sse_config
  same_config b p = elim (Option-cases (B.as_instrumented b.bucket)) [
    | inl e ↦ rw (e, with_expected_errs) refl
    | inr (w, e) ↦ rw (e, with_expected_errs) refl
  ]

  abbrev pub sse_reading : Reading B → Reading (sse_bucket L B with_sse)
  sse_reading V = record {
    view = λ b. V.view b.bucket;
    entries = λ b. V.entries b.bucket;
    Accepts = λ b. V.Accepts b.bucket × Succeeds (get_custom_s3_sse_config L B with_sse b);
  }

  module _ (V : Reading B) (R : IsReliable B V) where
    instrumented :
        (b : SseBucketClient L B with_sse) (p : Option Error → Bool)
        → let c = with_expected_errs L B with_sse b p in
          (V.Accepts b.bucket → V.Accepts c.bucket)
          × (V.view c.bucket ≡ V.view b.bucket)
          × (V.entries c.bucket ≡ V.entries b.bucket)
          × (B.is_obj_not_found_err c.bucket ≡ B.is_obj_not_found_err b.bucket)
    unfolding with_expected_errs
    instrumented b p = elim (Option-cases (B.as_instrumented b.bucket)) [
      | inl e ↦ rw (e, with_expected_errs) (λ a. a, refl, refl, refl)
      | inr (w, e) ↦ rw (e, with_expected_errs) (R.instrumented-same b.bucket w p e)
    ]

    -- An SSE client is a reliable object store if the bucket below is; it accepts uploads if that
    -- bucket does and the tenant's encryption can be built.
    pub sse_bucket-IsReliable : IsReliable (sse_bucket L B with_sse) (sse_reading V)
    unfolding Sse.delete Sse.iter Sse.get Sse.exists Sse.is_obj_not_found_err
    sse_bucket-IsReliable = record {
      upload-ok = λ b ctx n r s c a f.
          rw (upload-Succeeds b ctx n r s a.1) (R.upload-ok b.bucket _ n r s c a.0 f);
      view-upload = λ b ctx n r s c a f m.
          rw (upload-Succeeds b ctx n r s a.1) (R.view-upload b.bucket _ n r s c a.0 f m);
      delete_present = λ b. R.delete_present b.bucket;
      delete_absent = λ b. R.delete_absent b.bucket;
      view-delete = λ b. R.view-delete b.bucket;
      get_present = λ b. R.get_present b.bucket;
      get_absent = λ b. R.get_absent b.bucket;
      view-get = λ b. R.view-get b.bucket;
      exists-view = λ b. R.exists-view b.bucket;
      view-exists = λ b. R.view-exists b.bucket;
      iter-entries = λ b. R.iter-entries b.bucket;
      not_found-nil = λ b. R.not_found-nil b.bucket;
      instrumented-same = λ b w p e. rw (← some-injective _ _ e) (
        (λ a. ((instrumented b p).0 a.0, rw (same_config b p) a.1)),
        (instrumented b p).1,
        (instrumented b p).2,
        (instrumented b p).3,
      );
    }
