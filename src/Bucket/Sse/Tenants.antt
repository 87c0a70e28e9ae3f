-- ===== src/Bucket/Sse/Tenants.antt =====
-- How the options of a tenant decide the encryption of its uploads.
use blockstorageingestor.Prelude.{
  ◌≡◌, refl, ◌≢◌, ◌⊎◌, inl, inr, true, false, Option, some, [], ◌++◌, arith, ◌==◌, nat_eq,
  Bool-cases, Str, codes, str_beq_iff, str_eq,
}
use blockstorageingestor.Errors.{Error, ok, err, wrap, sentinel, unsupported_sse_type, Result-cases}
use blockstorageingestor.Objstore.{Reader, Bucket}
use blockstorageingestor.Bucket.S3.Config.{
  Library, sse_kms, sse_s3, build_minio_config, parse_kms_encryption_context,
}
use blockstorageingestor.Bucket.Sse
use blockstorageingestor.Bucket.Sse.{
  TenantConfigProvider, new_sse_bucket_client, get_custom_s3_sse_config,
}

module _ (L : Library) (B : Bucket) (with_sse : B.Context → L.ServerSide → B.Context) where
  -- The options of the tenant cannot be made an encryption, for the reason `e`: the text of the KMS
  -- context, the library's refusal of the key with it, or a type that is not supported.
  abbrev pub IsRefused : TenantConfigProvider → Str → Error → Type 0
  IsRefused p user e =
      let context = parse_kms_encryption_context L (p.s3_sse_kms_encryption_context user) in
      ((p.s3_sse_type user ≡ sse_kms) × (context ≡ err e))
      ⊎ ((p.s3_sse_type user ≡ sse_kms)
          × ((m : Option L.Map) × (context ≡ ok m)
              × (L.new_sse_kms (p.s3_sse_kms_key_id user) m ≡ err e)))
      ⊎ ((p.s3_sse_type user ≢ [])
          × (p.s3_sse_type user ≢ sse_kms)
          × (p.s3_sse_type user ≢ sse_s3)
          × (e ≡ sentinel unsupported_sse_type))

  differs : (a b : Str) → (a == b) ≡ false → a ≢ b
  differs a b h e =
      let t : (a == b) ≡ true = (str_beq_iff a b).1 e in let no : ⊥ = ground (arith, t, h) in no

  -- An upload of a client for a tenant with its options: without a type it is the bucket's own; with
  -- SSE-S3 the library's encryption is added to the context, with SSE-KMS the one that is made of
  -- the tenant's key and the context that its text is parsed to; and where the options cannot be
  -- made an encryption, the error with the tenant's name is returned, and the store is left alone.
  pub upload-tenant :
      (p : TenantConfigProvider) (user : Str) (bkt : B.Self) (ctx : B.Context) (n : Str)
      (r : Reader) (s : B.State)
      → let uploaded =
          Sse.upload L B with_sse
            (new_sse_bucket_client L B with_sse user bkt (some p))
            ctx
            n
            r
            s in
        let context = parse_kms_encryption_context L (p.s3_sse_kms_encryption_context user) in
        ((p.s3_sse_type user ≡ []) × (uploaded ≡ B.upload bkt ctx n r s))
        ⊎ ((p.s3_sse_type user ≡ sse_s3) × (uploaded ≡ B.upload bkt (with_sse ctx L.new_sse) n r s))
        ⊎ ((p.s3_sse_type user ≡ sse_kms)
            × ((m : Option L.Map) × (c : L.ServerSide) × (context ≡ ok m)
                × (L.new_sse_kms (p.s3_sse_kms_key_id user) m ≡ ok c)
                × (uploaded ≡ B.upload bkt (with_sse ctx c) n r s)))
        ⊎ ((e : Error) × IsRefused p user e
            × (uploaded ≡ (
              err (wrap e (codes "unable to customise S3 SSE config for tenant " ++ user)),
              s,
            )))
  unfolding Sse.upload get_custom_s3_sse_config build_minio_config
  upload-tenant p user bkt ctx n r s = elim (Bool-cases (p.s3_sse_type user == [])) [
    | inl h ↦ inl ((str_beq_iff _ _).0 h, rw (Sse.upload, get_custom_s3_sse_config, h) refl)
    | inr h ↦ elim (Bool-cases (p.s3_sse_type user == sse_kms)) [
      | inl k ↦
          let kms = (str_beq_iff _ _).0 k in
          elim (Result-cases
            (parse_kms_encryption_context L (p.s3_sse_kms_encryption_context user))) [
              | inr (e, q) ↦ inr (
                  inr (
                    inr (
                      e,
                      inl (kms, q),
                      rw (Sse.upload, get_custom_s3_sse_config, h, build_minio_config, k, q) refl,
                    )))
              | inl (m, q) ↦ elim (Result-cases (L.new_sse_kms (p.s3_sse_kms_key_id user) m)) [
                | inl (c, w) ↦ inr (
                    inr (
                      inl (
                        kms,
                        (
                          m,
                          c,
                          q,
                          w,
                          rw (Sse.upload, get_custom_s3_sse_config, h, build_minio_config, k, q, w)
                              refl,
                        ),
                      )))
                | inr (e, w) ↦ inr (
                    inr (
                      inr (
                        e,
                        inr (inl (kms, (m, q, w))),
                        rw (Sse.upload, get_custom_s3_sse_config, h, build_minio_config, k, q, w)
                            refl,
                      )))
              ]
            ]
      | inr k ↦ elim (Bool-cases (p.s3_sse_type user == sse_s3)) [
        | inl l ↦ inr (
            inl (
              (str_beq_iff _ _).0 l,
              rw (Sse.upload, get_custom_s3_sse_config, h, build_minio_config, k, l) refl,
            ))
        | inr l ↦ inr (
            inr (
              inr (
                sentinel unsupported_sse_type,
                inr (inr (differs _ _ h, differs _ _ k, differs _ _ l, refl)),
                rw (Sse.upload, get_custom_s3_sse_config, h, build_minio_config, k, l) refl,
              )))
      ]
    ]
  ]
