-- ===== src/Tsdb/CachingBucket/Names/Apart.antt =====
-- No file and no directory is of two kinds that one operation is cached for.
use blockstorageingestor.Prelude.{
  ◌≡◌, refl, sym, ap, ◌∙◌, ◌≢◌, ◌⊎◌, inl, inr, Bool, true, false, ◌&&◌, [], ◌∷◌, ◌++◌, append_assoc,
  arith, ◌==◌, nat_eq, Bool-cases, contains, Lacks, Str, codes, str_beq, str_beq_iff, str_eq,
}
use blockstorageingestor.Go.Strings.{has_suffix}
use blockstorageingestor.Go.FilePath.{slash, behind_slash}
use blockstorageingestor.Go.FilePath.Laws.{behind_slash-append, contains-slash, contains-Lacks}
use blockstorageingestor.Tsdb.CachingBucket.Names.{
  FileNames, is_meta_file, is_block_index_file, is_bucket_index_file, is_tenants_dir,
  is_tenant_blocks_dir, is_chunks_dir,
}
use blockstorageingestor.Tsdb.CachingBucket.Names.Laws.{is_tenant_blocks_dir-IsTenantDir}

has_suffix-split : (n t : Str) → has_suffix n t ≡ true → (p : Str) × (n ≡ p ++ t)
unfolding has_suffix
has_suffix-split [] t h = ([], (str_beq_iff [] t).0 h)
has_suffix-split (c ∷ n) t h = elim (Bool-cases ((c ∷ n) == t)) [
  | inl e ↦ ([], (str_beq_iff (c ∷ n) t).0 e)
  | inr e ↦
      let k : has_suffix n t ≡ true = ground (arith, e, h) in
      let (p, f) = has_suffix-split n t k in (c ∷ p, ap (λ t. c ∷ t) f)
]

-- the last component of a name with that suffix
last-has_suffix : (n x : Str) → Lacks slash x → has_suffix n (slash ∷ x) ≡ true → behind_slash n ≡ x
last-has_suffix n x l h =
    let (p, e) = has_suffix-split n (slash ∷ x) h in rw e (behind_slash-append p x l)

abbrev pub tenant_mark_file : Str
tenant_mark_file = codes "tenant-deletion-mark.json"

abbrev pub bucket_index_file : Str
bucket_index_file = codes "bucket-index.json.gz"

files_differ : tenant_mark_file ≢ bucket_index_file
files_differ e = cc

-- The file names of Thanos are single components, and the index is named unlike the other files.
pub record IsFileNames (N : FileNames) : Type 0 where
  pub meta_filename-Lacks : Lacks slash N.meta_filename
  pub deletion_mark_filename-Lacks : Lacks slash N.deletion_mark_filename
  pub index_filename-Lacks : Lacks slash N.index_filename
  pub index_not_meta : N.index_filename ≢ N.meta_filename
  pub index_not_mark : N.index_filename ≢ N.deletion_mark_filename
  pub index_not_tenant_mark : N.index_filename ≢ tenant_mark_file
  pub meta_not_bucket_index : N.meta_filename ≢ bucket_index_file
  pub mark_not_bucket_index : N.deletion_mark_filename ≢ bucket_index_file

module _ (N : FileNames) (W : IsFileNames N) where
  tenant_mark-last :
      (n : Str)
      → has_suffix n (codes "/markers/tenant-deletion-mark.json") ≡ true
      → behind_slash n ≡ tenant_mark_file
  tenant_mark-last n h =
      let (p, e) = has_suffix-split n (codes "/markers/tenant-deletion-mark.json") h in
      rw e (
        ap behind_slash (sym (append_assoc p (codes "/markers") (slash ∷ tenant_mark_file)))
        ∙ behind_slash-append (p ++ codes "/markers") tenant_mark_file (omega arith))

  last-is_meta_file :
      (n : Str)
      → is_meta_file N n ≡ true
      → (behind_slash n ≡ N.meta_filename)
        ⊎ (behind_slash n ≡ N.deletion_mark_filename)
        ⊎ (behind_slash n ≡ tenant_mark_file)
  unfolding is_meta_file
  last-is_meta_file n h = elim (Bool-cases (has_suffix n (slash ∷ N.meta_filename))) [
    | inl e ↦ inl (last-has_suffix n _ W.meta_filename-Lacks e)
    | inr e ↦ elim (Bool-cases (has_suffix n (slash ∷ N.deletion_mark_filename))) [
      | inl f ↦ inr (inl (last-has_suffix n _ W.deletion_mark_filename-Lacks f))
      | inr f ↦ inr (inr (tenant_mark-last n (ground (arith, e, f, h))))
    ]
  ]

  last-is_block_index_file :
      (n : Str) → is_block_index_file N n ≡ true → behind_slash n ≡ N.index_filename
  unfolding is_block_index_file
  last-is_block_index_file n h = last-has_suffix n _ W.index_filename-Lacks (ground (arith, h))

  last-is_bucket_index_file :
      (n : Str) → is_bucket_index_file n ≡ true → behind_slash n ≡ bucket_index_file
  unfolding is_bucket_index_file
  last-is_bucket_index_file n h = last-has_suffix n bucket_index_file (omega arith) h

  not_both : (a b : Bool) → (a ≡ true → b ≡ true → ⊥) → (a && b) ≡ false
  not_both false b h = refl
  not_both true false h = refl
  not_both true true h = absurd (h refl refl)

  pub meta-index-apart : (n : Str) → (is_meta_file N n && is_block_index_file N n) ≡ false
  meta-index-apart n = not_both _ _ (λ m i.
      let last = last-is_block_index_file n i in
      elim (last-is_meta_file n m) [
        | inl e ↦ W.index_not_meta (sym last ∙ e)
        | inr (inl e) ↦ W.index_not_mark (sym last ∙ e)
        | inr (inr e) ↦ W.index_not_tenant_mark (sym last ∙ e)
      ])

  pub meta-bucket_index-apart : (n : Str) → (is_meta_file N n && is_bucket_index_file n) ≡ false
  meta-bucket_index-apart n = not_both _ _ (λ m i.
      let last = last-is_bucket_index_file n i in
      elim (last-is_meta_file n m) [
        | inl e ↦ W.meta_not_bucket_index (sym e ∙ last)
        | inr (inl e) ↦ W.mark_not_bucket_index (sym e ∙ last)
        | inr (inr e) ↦ files_differ (sym e ∙ last)
      ])

  pub tenants-blocks-apart : (n : Str) → (is_tenants_dir n && is_tenant_blocks_dir n) ≡ false
  unfolding is_tenants_dir is_tenant_blocks_dir str_beq
  tenants-blocks-apart [] = refl
  tenants-blocks-apart (c ∷ n) = refl

  pub tenants-chunks-apart : (n : Str) → (is_tenants_dir n && is_chunks_dir n) ≡ false
  unfolding is_tenants_dir is_chunks_dir has_suffix str_beq
  tenants-chunks-apart [] = refl
  tenants-chunks-apart (c ∷ n) = refl

  pub blocks-chunks-apart : (n : Str) → (is_tenant_blocks_dir n && is_chunks_dir n) ≡ false
  unfolding is_chunks_dir
  blocks-chunks-apart n = not_both _ _ (λ h k.
      let (p, e) = has_suffix-split n (codes "/chunks") k in
      let (t, _, l, w) = (is_tenant_blocks_dir-IsTenantDir n).0 h in
      elim w [
        | inl f ↦
            let slashed : contains t slash ≡ true =
              ap (λ t. contains t slash) (sym f ∙ e) ∙ contains-slash p (codes "chunks") in
            let none_there = contains-Lacks t l in cc
        | inr f ↦
            let same : [] ≡ codes "chunks" =
              sym (behind_slash-append t [] tt)
              ∙ ap behind_slash (sym f ∙ e)
              ∙ behind_slash-append p (codes "chunks") (omega arith) in
            cc
      ])
