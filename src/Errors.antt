-- ===== src/Errors.antt =====
-- Go errors as values, and checks that may fail.
use blockstorageingestor.Prelude.{
  ℕ, ◌≡◌, refl, ◌⊎◌, inl, inr, Bool, true, false, Option, none, some, arith, if◌then◌else◌, nat_eq,
  Str, str_eq,
}

-- The package-level error variables of the program.
pub data Sentinel : Type 0 where
  invalid_ship_concurrency invalid_opening_concurrency invalid_compaction_interval : Sentinel
  invalid_compaction_concurrency invalid_wal_segment_size_bytes invalid_stripe_size : Sentinel
  invalid_out_of_order_cap_max empty_block_ranges : Sentinel
  unsupported_index_cache_backend no_index_cache_addresses : Sentinel
  unsupported_storage_backend : Sentinel
  unsupported_signature_version unsupported_sse_type invalid_sse_context : Sentinel
  invalid_bucket_lookup_type : Sentinel
  index_not_found index_corrupted : Sentinel
  invalid_http_prefix : Sentinel
  object_does_not_exist : Sentinel

-- A non-nil `error`. `foreign` is one made by code outside the repository, `errorf` one made by
-- `errors.Errorf` or `fmt.Errorf`, `wrap` one made by `errors.Wrap`.
pub data Error : Type 0 where
  foreign : ℕ → Error
  sentinel : Sentinel → Error
  errorf : Str → Error
  wrap : Error → Str → Error

pub data Result {ℓ} (A : Type ℓ) : Type ℓ where
  ok : A → Result A
  err : Error → Result A

pub Result-cases {κ} :
    {X : Type κ} (m : Result X) → ((x : X) × (m ≡ ok x)) ⊎ ((failure : Error) × (m ≡ err failure))
Result-cases (err failure) = inr (failure, refl)
Result-cases (ok x) = inl (x, refl)

-- `errors.Wrap(err, msg)`, which is nil at a nil error
abbrev pub wrapped {ℓ} : {A : Type ℓ} → Result A → Str → Result A
wrapped (ok a) msg = ok a
wrapped (err e) msg = err (wrap e msg)

-- The error that a result carries, nil being `none`.
abbrev pub error_of {ℓ} : {A : Type ℓ} → Result A → Option Error
error_of (ok a) = none
error_of (err e) = some e

-- A chain of checks: the first error is the outcome.
infixl 5 ◌>>=◌ ◌>>◌
abbrev pub ◌>>=◌ {ℓ κ} : {X : Type ℓ} {Y : Type κ} → Result X → (X → Result Y) → Result Y
m >>= f = elim m [ err e ↦ err e | ok x ↦ f x ]

abbrev pub ◌>>◌ {κ} : {Y : Type κ} → Result (Unit {0}) → Result Y → Result Y
m >> next = elim m [ err e ↦ err e | ok u ↦ next ]

pub passed {ℓ} :
    {A : Type ℓ} (c : Bool) (e : Error) (m : Result A) (x : A)
    → (if c then err e else m) ≡ ok x
    → (c ≡ false) × (m ≡ ok x)
passed true e m x v = let no : ⊥ = ground arith in elim no [ ]
passed false e m x v = (refl, v)
