-- ===== src/Bucket/Prefixed/Laws.antt =====
-- A client under a prefix is a reliable object store if the bucket below is, and two clients under
-- different prefixes do not see one another's objects.
use blockstorageingestor.Prelude.{
  ◌≡◌, refl, sym, ap, ◌∙◌, ◌≢◌, inl, inr, Bool, false, Option, [], ◌∷◌, ◌++◌, map, nat_eq,
  Bool-cases, Option-cases, Lacks, Str, str_beq, str_beq_iff, str_eq, str_beq-append,
}
use mathlib.Core.Option.{some-injective}
use blockstorageingestor.Errors.{Error}
use blockstorageingestor.Exec.{for_each-map}
use blockstorageingestor.Go.Strings.{trim_prefix}
use blockstorageingestor.Objstore.{Reader, Bucket, dir_delim}
use blockstorageingestor.Objstore.Lawful.{Reading, IsReliable, IsFresh}
use blockstorageingestor.Go.Strings.Laws.{sep_injective}
use blockstorageingestor.Bucket.Prefixed
use blockstorageingestor.Bucket.Prefixed.{
  PrefixedBucketClient, new_prefixed_bucket_client, full_name, prefixed, with_expected_errs,
}

module _ (B : Bucket) where
  -- The same object, named through one prefix, is the same name without it.
  full_name_beq :
      (b : PrefixedBucketClient B) (m n : Str)
      → str_beq (full_name B b m) (full_name B b n) ≡ str_beq m n
  unfolding full_name str_beq
  full_name_beq b m n = str_beq-append b.prefix (dir_delim ∷ m) (dir_delim ∷ n)

  -- The objects whose names begin with the prefix, by the rest of their names, and what is listed
  -- of the directory below, without the prefix.
  abbrev pub prefixed_reading : Reading B → Reading (prefixed B)
  prefixed_reading V = record {
    view = λ b s n. V.view b.bucket s (full_name B b n);
    entries = λ b s d.
        map (λ e. trim_prefix e (b.prefix ++ dir_delim ∷ []))
          (V.entries b.bucket s (full_name B b d));
    Accepts = λ b. V.Accepts b.bucket;
  }

  module _ (V : Reading B) (R : IsReliable B V) where
    open prefixed_reading V use {view as own_view, entries as own_entries}

    instrumented :
        (b : PrefixedBucketClient B) (p : Option Error → Bool)
        → let c = with_expected_errs B b p in
          (V.Accepts b.bucket → V.Accepts c.bucket)
          × (own_view c ≡ own_view b)
          × (own_entries c ≡ own_entries b)
          × (B.is_obj_not_found_err c.bucket ≡ B.is_obj_not_found_err b.bucket)
    unfolding with_expected_errs full_name
    instrumented b p = elim (Option-cases (B.as_instrumented b.bucket)) [
      | inl e ↦ rw (e, with_expected_errs) (λ a. a, refl, refl, refl)
      | inr (w, e) ↦
          rw (e, with_expected_errs)
            (
              (R.instrumented-same b.bucket w p e).0,
              ap (λ v s n. v s (b.prefix ++ dir_delim ∷ n)) (R.instrumented-same b.bucket w p e).1,
              ap
                  (λ l s d.
                    map (λ e. trim_prefix e (b.prefix ++ dir_delim ∷ []))
                      (l s (b.prefix ++ dir_delim ∷ d)))
                  (R.instrumented-same b.bucket w p e).2,
              (R.instrumented-same b.bucket w p e).3,
            )
    ]

    -- A client under a prefix is a reliable object store if the bucket below is: it sees the
    -- objects whose names begin with the prefix, by the rest of their names.
    pub prefixed-IsReliable : IsReliable (prefixed B) (prefixed_reading V)
    unfolding Prefixed.upload Prefixed.delete Prefixed.iter Prefixed.get Prefixed.exists
        Prefixed.is_obj_not_found_err
    prefixed-IsReliable = record {
      upload-ok = λ b ctx n r s c a f. R.upload-ok b.bucket ctx (full_name B b n) r s c a f;
      view-upload = λ b ctx n r s c a f m.
          rw
            (
              R.view-upload b.bucket ctx (full_name B b n) r s c a f (full_name B b m),
              full_name_beq,
            )
            refl;
      delete_present = λ b ctx n s c e. R.delete_present b.bucket ctx (full_name B b n) s c e;
      delete_absent = λ b ctx n s e. R.delete_absent b.bucket ctx (full_name B b n) s e;
      view-delete = λ b ctx n s m.
          rw (R.view-delete b.bucket ctx (full_name B b n) s (full_name B b m), full_name_beq) refl;
      get_present = λ b ctx n s c e. R.get_present b.bucket ctx (full_name B b n) s c e;
      get_absent = λ b ctx n s e. R.get_absent b.bucket ctx (full_name B b n) s e;
      view-get = λ b ctx n s m. R.view-get b.bucket ctx (full_name B b n) s (full_name B b m);
      exists-view = λ b ctx n s. R.exists-view b.bucket ctx (full_name B b n) s;
      view-exists = λ b ctx n s m. R.view-exists b.bucket ctx (full_name B b n) s (full_name B b m);
      iter-entries = λ b X ctx d f os s x.
          R.iter-entries b.bucket X ctx (full_name B b d) _ os s x
          ∙ sym (for_each-map (λ e. trim_prefix e (b.prefix ++ dir_delim ∷ [])) f _ (s, x));
      not_found-nil = λ b. R.not_found-nil b.bucket;
      instrumented-same = λ b w p e. rw (← some-injective _ _ e) (instrumented b p);
    }

    -- Two prefixes that hold no slash and differ name no object twice.
    full_name-ne :
        (x : B.Self) (u v m n : Str)
        → u ≢ v
        → Lacks dir_delim u
        → Lacks dir_delim v
        → str_beq
            (full_name B (new_prefixed_bucket_client B x v) m)
            (full_name B (new_prefixed_bucket_client B x u) n)
          ≡ false
    unfolding full_name
    full_name-ne x u v m n h lu lv =
        elim (Bool-cases (str_beq (v ++ dir_delim ∷ m) (u ++ dir_delim ∷ n))) [
          | inl e ↦
              absurd (h (sym (sep_injective dir_delim v u m n lv lu ((str_beq_iff _ _).0 e)).0))
          | inr e ↦ e
        ]

    -- Over a reliable bucket, with two prefixes that differ and hold no slash: what a client under
    -- one prefix uploads or deletes leaves every object that a client under the other sees as it was.
    pub prefixed_isolated :
        (x : B.Self) (u v : Str)
        → u ≢ v
        → Lacks dir_delim u
        → Lacks dir_delim v
        → (ctx : B.Context) (n c : Str) (r : Reader) (s : B.State) (m : Str) → V.Accepts x
        → IsFresh r c
        → let mine = new_prefixed_bucket_client B x u in
          let other = new_prefixed_bucket_client B x v in
          (own_view other (Prefixed.upload B mine ctx n r s).1 m ≡ own_view other s m)
          × (own_view other (Prefixed.delete B mine ctx n s).1 m ≡ own_view other s m)
    unfolding Prefixed.upload Prefixed.delete
    prefixed_isolated x u v h lu lv ctx n c r s m a f = (
      rw (R.view-upload x ctx _ r s c a f _, full_name-ne x u v m n h lu lv) refl,
      rw (R.view-delete x ctx _ s _, full_name-ne x u v m n h lu lv) refl,
    )
