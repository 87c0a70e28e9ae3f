-- ===== src/Bucket/Backends/Names.antt =====
-- The names of the flags of the bucket's options.
use blockstorageingestor.Prelude.{
  ◌≡◌, refl, ◌∙◌, Bool, true, not, ◌&&◌, Option, List, [], ◌∷◌, ◌++◌, append_assoc, arith,
  nat_beq_iff, nat_eq, contains, All, Str, str_beq, str_eq, str_beq-append,
}
use blockstorageingestor.Go.Flags.{FlagSet, var}
use blockstorageingestor.Go.Strings.{has_prefix}
use blockstorageingestor.Go.FlagVars.{Texts}
use blockstorageingestor.Bucket.S3.Config.{Library}
use blockstorageingestor.Bucket.S3.Flags.{
  register_s3, register_sse, register_http, register_http_config,
}
use blockstorageingestor.Bucket.Gcs.{register_gcs}
use blockstorageingestor.Bucket.Azure.{register_azure}
use blockstorageingestor.Bucket.Swift.{register_swift}
use blockstorageingestor.Bucket.Filesystem.{register_filesystem}
use blockstorageingestor.Bucket.Client.{BackendConfig}
use blockstorageingestor.Bucket.Backends.{Sdk, backends, register_bucket}

abbrev pub names : FlagSet → List Str
names [] = []
names (f ∷ fs) = f.name ∷ names fs

-- No name is registered twice, at which Go panics.
unfoldable pub are_distinct : List Str → Bool
are_distinct [] = true
are_distinct (n ∷ ns) = not (contains ns n) && are_distinct ns

abbrev pub prefixed_by : Str → List Str → List Str
prefixed_by p [] = []
prefixed_by p (n ∷ ns) = (p ++ n) ∷ prefixed_by p ns

contains-prefixed_by :
    (p n : Str) (ns : List Str) → contains (prefixed_by p ns) (p ++ n) ≡ contains ns n
contains-prefixed_by p n [] = refl
contains-prefixed_by p n (m ∷ ns) = rw (str_beq-append p m n, contains-prefixed_by p n ns) refl

are_distinct-prefixed_by :
    (p : Str) (ns : List Str) → are_distinct (prefixed_by p ns) ≡ are_distinct ns
unfolding are_distinct
are_distinct-prefixed_by p [] = refl
are_distinct-prefixed_by p (n ∷ ns) =
    rw (contains-prefixed_by p n ns, are_distinct-prefixed_by p ns) refl

has_prefix-append : (p s : Str) → has_prefix (p ++ s) p ≡ true
unfolding has_prefix
has_prefix-append [] s = refl
has_prefix-append (c ∷ p) s = ground (arith, nat_beq_iff c c, has_prefix-append p s)

module _ (L : Library) (S : Sdk L) (X : Texts) (reg : Option S.Registerer) where
  abbrev bucket_names : Str → BackendConfig L (backends L S reg) → List Str
  bucket_names prefix c = names (register_bucket L S X reg prefix (c, [])).1

  names-register_bucket :
      (prefix : Str) (c d : BackendConfig L (backends L S reg))
      → bucket_names prefix c ≡ prefixed_by prefix (bucket_names [] d)
  unfolding register_bucket register_s3 register_sse register_http register_http_config register_gcs
      register_azure register_swift register_filesystem var
  names-register_bucket prefix c d = simp (append_assoc)

  distinct_names :
      (c : BackendConfig L (backends L S reg)) → are_distinct (bucket_names [] c) ≡ true
  unfolding register_bucket register_s3 register_sse register_http register_http_config register_gcs
      register_azure register_swift register_filesystem var are_distinct str_beq
  distinct_names c = refl

  contains_prefix :
      (prefix : Str) (ns : List Str) → All (λ n. has_prefix n prefix ≡ true) (prefixed_by prefix ns)
  contains_prefix prefix [] = tt
  contains_prefix prefix (n ∷ ns) = (has_prefix-append prefix n, contains_prefix prefix ns)

  -- With any prefix, and whatever the options hold: the registration of the bucket's flags into an
  -- empty set never registers a name twice, and every name begins with the prefix.
  pub register_bucket-names :
      (prefix : Str) (c : BackendConfig L (backends L S reg))
      → (are_distinct (names (register_bucket L S X reg prefix (c, [])).1) ≡ true)
        × All (λ n. has_prefix n prefix ≡ true) (names (register_bucket L S X reg prefix (c, [])).1)
  register_bucket-names prefix c = rw (names-register_bucket prefix c c) (
    are_distinct-prefixed_by prefix (bucket_names [] c) ∙ distinct_names c,
    contains_prefix prefix (bucket_names [] c),
  )
