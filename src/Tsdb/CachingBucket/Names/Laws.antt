-- ===== src/Tsdb/CachingBucket/Names/Laws.antt =====
-- The expressions of the cached names, as sets of texts.
use blockstorageingestor.Prelude.{
  ℕ, ◌≡◌, refl, ap, ◌≢◌, ◌↔◌, ◌⊎◌, inl, inr, true, false, Option, none, some, [], ◌∷◌, ◌++◌, arith,
  nat_beq, nat_beq_iff, nat_eq, Bool-cases, Lacks, Str, str_beq, str_beq_iff, str_eq, str_beq_refl,
}
use blockstorageingestor.Go.Strings.{behind}
use blockstorageingestor.Go.Strings.Laws.{behind-append}
use blockstorageingestor.Go.FilePath.{slash}
use blockstorageingestor.Tsdb.CachingBucket.Names.{
  newline, is_number, is_number_of, chunks_infix, is_tsdb_chunk_file, ends_component,
  is_tenant_blocks_dir,
}

behind-some : (n t r : Str) → behind n t ≡ some r → n ≡ t ++ r
unfolding behind
behind-some n [] r h = cc
behind-some [] (c ∷ t) r h = let no : ⊥ = cc in elim no [ ]
behind-some (d ∷ n) (c ∷ t) r h = elim (Bool-cases (nat_beq d c)) [
  | inl e ↦
      let k : behind n t ≡ some r = ground (arith, e, h) in
      let same = (nat_beq_iff d c).0 e in rw (behind-some n t r k, same) refl
  | inr e ↦ let no : ⊥ = ground (arith, e, h) in elim no [ ]
]

-- A text of the expression `^.*/chunks/\d+$`.
abbrev pub IsChunkName : Str → Type 0
IsChunkName n =
    (p : Str) × (d : Str) × (n ≡ p ++ chunks_infix ++ d) × Lacks newline p × (is_number d ≡ true)

number_of-some :
    (o : Option Str) → is_number_of o ≡ true → (d : Str) × (o ≡ some d) × (is_number d ≡ true)
number_of-some none h = let no : ⊥ = cc in elim no [ ]
number_of-some (some d) h = (d, refl, h)

later : (c : ℕ) (s : Str) → (nat_beq c newline) ≡ false → IsChunkName s → IsChunkName (c ∷ s)
later c s e (p, d, f, l, h) =
    let apart : c ≢ newline = λ k. let yes = (nat_beq_iff c newline).1 k in let no : ⊥ = cc in no in
    (c ∷ p, d, ap (λ t. c ∷ t) f, (apart, l), h)

chunk_sound : (n : Str) → is_tsdb_chunk_file n ≡ true → IsChunkName n
unfolding is_tsdb_chunk_file
chunk_sound [] h = let no : ⊥ = cc in elim no [ ]
chunk_sound (c ∷ s) h = elim (Bool-cases (is_number_of (behind (c ∷ s) chunks_infix))) [
  | inl e ↦
      let (d, f, g) = number_of-some _ e in ([], d, behind-some (c ∷ s) chunks_infix d f, tt, g)
  | inr e ↦ elim (Bool-cases (nat_beq c newline)) [
    | inl f ↦ let no : ⊥ = ground (arith, e, f, h) in elim no [ ]
    | inr f ↦ later c s f (chunk_sound s (ground (arith, e, f, h)))
  ]
]

chunk_complete :
    (p d : Str)
    → Lacks newline p
    → is_number d ≡ true
    → is_tsdb_chunk_file (p ++ chunks_infix ++ d) ≡ true
unfolding is_tsdb_chunk_file
chunk_complete [] d l h = rw (behind-append chunks_infix d) (rw h refl)
chunk_complete (c ∷ p) d l h = ground (arith, chunk_complete p d l.1 h, l.0)

-- `isTSDBChunkFile` decides the language of its expression: some text without a newline, the
-- directory `chunks`, and one digit or more up to the end.
pub is_tsdb_chunk_file-IsChunkName : (n : Str) → (is_tsdb_chunk_file n ≡ true) ↔ IsChunkName n
is_tsdb_chunk_file-IsChunkName n = (chunk_sound n, λ (p, d, e, l, h). rw e (chunk_complete p d l h))

-- A name of one component, with or without a slash behind it.
abbrev pub IsTenantDir : Str → Type 0
IsTenantDir n = (t : Str) × (t ≢ []) × Lacks slash t × ((n ≡ t) ⊎ (n ≡ t ++ slash ∷ []))

ends_sound :
    (s : Str)
    → ends_component s ≡ true
    → (t : Str) × Lacks slash t × ((s ≡ t) ⊎ (s ≡ t ++ slash ∷ []))
unfolding ends_component
ends_sound [] h = ([], tt, inl refl)
ends_sound (c ∷ s) h = elim (Bool-cases (nat_beq c slash)) [
  | inl e ↦
      let k : str_beq s [] ≡ true = ground (arith, e, h) in
      let same = (str_beq_iff s []).0 k in
      let code = (nat_beq_iff c slash).0 e in ([], tt, inr (rw (same, code) refl))
  | inr e ↦
      let apart : c ≢ slash = λ k. let yes = (nat_beq_iff c slash).1 k in let no : ⊥ = cc in no in
      let (t, l, w) = ends_sound s (ground (arith, e, h)) in
      (
        c ∷ t,
        (apart, l),
        elim w [ inl f ↦ inl (ap (λ t. c ∷ t) f) | inr f ↦ inr (ap (λ t. c ∷ t) f) ],
      )
]

ends_complete :
    (t : Str)
    → Lacks slash t
    → (ends_component t ≡ true) × (ends_component (t ++ slash ∷ []) ≡ true)
unfolding ends_component
ends_complete [] l = (refl, str_beq_refl [])
ends_complete (c ∷ t) l =
    let (p, q) = ends_complete t l.1 in (ground (arith, p, l.0), ground (arith, q, l.0))

tenant_sound : (n : Str) → is_tenant_blocks_dir n ≡ true → IsTenantDir n
unfolding is_tenant_blocks_dir
tenant_sound [] h = let no : ⊥ = cc in elim no [ ]
tenant_sound (c ∷ s) h =
    let e : nat_beq c slash ≡ false = ground arith in
    let apart : c ≢ slash = λ k. let yes = (nat_beq_iff c slash).1 k in let no : ⊥ = cc in no in
    let (t, l, w) = ends_sound s (ground arith) in
    (
      c ∷ t,
      cc,
      (apart, l),
      elim w [ inl f ↦ inl (ap (λ t. c ∷ t) f) | inr f ↦ inr (ap (λ t. c ∷ t) f) ],
    )

tenant_complete :
    (t : Str)
    → t ≢ []
    → Lacks slash t
    → (is_tenant_blocks_dir t ≡ true) × (is_tenant_blocks_dir (t ++ slash ∷ []) ≡ true)
unfolding is_tenant_blocks_dir
tenant_complete [] k l = absurd (k refl)
tenant_complete (c ∷ t) k l =
    let (p, q) = ends_complete t l.1 in (ground (arith, p, l.0), ground (arith, q, l.0))

-- `isTenantBlocksDir` decides the language of its expression: one non-empty component without a
-- slash, alone or with one slash behind it.
pub is_tenant_blocks_dir-IsTenantDir : (n : Str) → (is_tenant_blocks_dir n ≡ true) ↔ IsTenantDir n
is_tenant_blocks_dir-IsTenantDir n = (
  tenant_sound n,
  λ (t, k, l, w). elim w [
    | inl e ↦ rw e (tenant_complete t k l).0
    | inr e ↦ rw e (tenant_complete t k l).1
  ],
)
