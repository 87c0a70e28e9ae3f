-- ===== src/Bucket/S3/Retries/Uploads.antt =====
-- An upload with retries, whose reader is consumed by each attempt.
use blockstorageingestor.Prelude.{
  ℕ, zero, suc, ◌≡◌, refl, ap, ◌∙◌, inl, inr, Bool, Option, none, some, nat_eq, Bool-cases, Str,
  str_eq,
}
use blockstorageingestor.Errors.{Error, ok, err, Result-cases}
use blockstorageingestor.Exec.{Exec}
use blockstorageingestor.Objstore.{Reader, Bucket, bytes_reader}
use blockstorageingestor.Bucket.S3.Retries.{
  Backoff, BucketWithRetries, Consumption, ended, retry_loop, start, retry, upload_from,
  seek_and_upload, upload,
}

-- An operation `g` on a larger state that behaves like `f` on a part of it, as long as `Inv` holds of
-- the larger state, which `g` keeps.
record Simulates {T U A : Type 0} (g : Exec U A) (f : Exec T A) (part : U → T) (Inv : U → Type 0)
    : Type 0 where
  same_result : (u : U) → Inv u → (g u).0 ≡ (f (part u)).0
  same_state : (u : U) → Inv u → part (g u).1 ≡ (f (part u)).1
  kept : (u : U) → Inv u → Inv (g u).1

module _ (B : Bucket) (L : Backoff B.Context) {T U A : Type 0} (zero_value : A)
    (not_found : Error → Bool) (g : Exec U A) (f : Exec T A) (part : U → T) (Inv : U → Type 0)
    (S : Simulates g f part Inv) where
  retry_loop-Simulates :
      (n : ℕ) (r : L.Retries) (last : Option Error) (u : U)
      → Inv u
      → let done = retry_loop B L zero_value not_found g n r last u in
        (done.0, part done.1) ≡ retry_loop B L zero_value not_found f n r last (part u)
  unfolding retry_loop ended
  retry_loop-Simulates zero r last u i = refl
  retry_loop-Simulates (suc n) r last u i = elim (Bool-cases (L.ongoing r)) [
    | inr p ↦ rw (p, retry_loop) refl
    | inl p ↦ elim (Result-cases (f (part u)).0) [
      | inl (a, q) ↦
          let h : (g u).0 ≡ ok a = S.same_result u i ∙ q in
          rw (p, retry_loop, h, q) (ap (λ t. (ok a, t)) (S.same_state u i))
      | inr (e, q) ↦
          let h : (g u).0 ≡ err e = S.same_result u i ∙ q in
          elim (Bool-cases (not_found e)) [
            | inl m ↦ rw (p, retry_loop, h, q, m) (ap (λ t. (err e, t)) (S.same_state u i))
            | inr m ↦
                rw (p, retry_loop, h, q, m, ← S.same_state u i)
                  (retry_loop-Simulates n (L.wait r) (some e) (g u).1 (S.kept u i))
          ]
    ]
  ]

-- However much of a reader an upload reads, a `Seek` to its start finds what it found before.
abbrev pub IsConsumption : (B : Bucket) → Consumption B → Type 0
IsConsumption B C =
    (b : B.Self) (ctx : B.Context) (name : Str) (r : Reader) (s : B.State)
    → (C.left b ctx name r s).seek_start ≡ r.seek_start

module _ (B : Bucket) (L : Backoff B.Context) (C : Consumption B) (H : IsConsumption B C)
    (b : BucketWithRetries B L) (ctx : B.Context) (name : Str) (c : Str) where
  abbrev CanSeek : B.State × Reader → Type 0
  CanSeek x = x.1.seek_start ≡ some (ok (ok c))

  whole :
      (x : B.State × Reader)
      → CanSeek x
      → seek_and_upload B L C b.bucket ctx name x ≡ (
          let r = bytes_reader c in
          let done = B.upload b.bucket ctx name r x.0 in
          (done.0, (done.1, C.left b.bucket ctx name r x.0)))
  unfolding seek_and_upload upload_from
  whole (s, r) h =
      let e : record r { unread = ok c } ≡ bytes_reader c =
        λ i. record { unread = ok c; seek_start = h i } in
      rw (seek_and_upload, h, e) refl

  seek_and_upload-Simulates :
      Simulates
        (seek_and_upload B L C b.bucket ctx name)
        (B.upload b.bucket ctx name (bytes_reader c))
        (λ x. x.0)
        CanSeek
  seek_and_upload-Simulates = record {
    same_result = λ x h. ap (λ d. d.0) (whole x h);
    same_state = λ x h. ap (λ d. d.1.0) (whole x h);
    kept = λ x h. rw (whole x h) (H b.bucket ctx name (bytes_reader c) x.0);
  }

  -- An upload from a reader whose `Seek` to the start succeeds and finds a content that can be read,
  -- whatever has been read of it before and, where reading does not change what `Seek` finds,
  -- however much each attempt reads: every attempt sends the whole content, so that the call is that
  -- of an upload from an untouched reader, tried again.
  pub upload-whole :
      (r : Reader) (s : B.State)
      → r.seek_start ≡ some (ok (ok c))
      → upload B L C b ctx name r s
        ≡ retry B L b ctx tt (B.upload b.bucket ctx name (bytes_reader c)) s
  unfolding upload retry
  upload-whole r s h =
      rw (upload, h)
        (retry_loop-Simulates B L tt (λ e. B.is_obj_not_found_err b.bucket (some e))
          (seek_and_upload B L C b.bucket ctx name) (B.upload b.bucket ctx name (bytes_reader c))
          (λ x. x.0) CanSeek seek_and_upload-Simulates (suc b.operation_retries) (start B L b ctx)
          none (s, r) h)
