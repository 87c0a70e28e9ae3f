-- ===== src/Bucket/S3/Retries/Recovery.antt =====
-- A call with retries outlasts failures that pass.
use blockstorageingestor.Prelude.{
  ℕ, zero, suc, ◌≤◌, ◌<◌, ◌≡◌, ap, Bool, true, false, Option, none, some, arith, nat_eq, str_eq,
}
use blockstorageingestor.Errors.{Error, ok, err}
use blockstorageingestor.Exec.{Exec}
use blockstorageingestor.Objstore.{Bucket}
use blockstorageingestor.Bucket.S3.Retries.{Backoff, BucketWithRetries, retry_loop, start, retry}

-- A backoff that goes on for `n` attempts: its context stays alive meanwhile.
module _ {Context : Type 0} (L : Backoff Context) where
  abbrev pub GoesOn : ℕ → L.Retries → Type 0
  GoesOn zero r = Unit
  GoesOn (suc n) r = (L.ongoing r ≡ true) × GoesOn n (L.wait r)

  GoesOn-le : (m n : ℕ) (r : L.Retries) → n ≤ m → GoesOn m r → GoesOn n r
  GoesOn-le m zero r h g = tt
  GoesOn-le zero (suc n) r h g = let no : ⊥ = omega arith in elim no [ ]
  GoesOn-le (suc m) (suc n) r h g = (g.0, GoesOn-le m n (L.wait r) (omega arith) g.1)

-- An operation that fails `k` times, otherwise than for a missing object, each time from the state
-- that the failure left, and then succeeds with `a`, in the state `u`.
pub data Recovers {T A : Type 0} (not_found : Error → Bool) (f : Exec T A) (a : A) (u : T)
    : ℕ → T → Type 0 where
  now : (t : T) → (f t).0 ≡ ok a → (f t).1 ≡ u → Recovers not_found f a u 0 t
  later :
      (k : ℕ) (t : T) (e : Error)
      → (f t).0 ≡ err e
      → not_found e ≡ false
      → Recovers not_found f a u k (f t).1
      → Recovers not_found f a u (suc k) t

module _ (B : Bucket) (L : Backoff B.Context) {T A : Type 0} (zero_value : A) (f : Exec T A) where
  retry_loop-Recovers :
      (not_found : Error → Bool) (a : A) (u : T) (n : ℕ) (r : L.Retries) (last : Option Error)
      {k : ℕ} {t : T}
      → k < n
      → GoesOn L (suc k) r
      → Recovers not_found f a u k t
      → retry_loop B L zero_value not_found f n r last t ≡ (ok a, u)
  unfolding retry_loop
  retry_loop-Recovers not_found a u zero r last h g w = let no : ⊥ = omega arith in elim no [ ]
  retry_loop-Recovers not_found a u (suc n) r last h g (now t p q) =
      rw (g.0, retry_loop, p) (ap (λ x. (ok a, x)) q)
  retry_loop-Recovers not_found a u (suc n) r last h g (later k t e p m w) =
      rw (g.0, retry_loop, p, m)
        (retry_loop-Recovers not_found a u n (L.wait r) (some e) (omega arith) g.1 w)

  -- Where the operation recovers after fewer failures than there are attempts, and the backoff goes
  -- on for as many attempts as are configured, the call succeeds, with the result and the state of
  -- the attempt that succeeded.
  pub retry-Recovers :
      (b : BucketWithRetries B L) (ctx : B.Context) (k : ℕ) (t : T) (a : A) (u : T)
      → k < b.operation_retries
      → GoesOn L b.operation_retries (start B L b ctx)
      → Recovers (λ e. B.is_obj_not_found_err b.bucket (some e)) f a u k t
      → retry B L b ctx zero_value f t ≡ (ok a, u)
  unfolding retry
  retry-Recovers b ctx k t a u h g w =
      retry_loop-Recovers (λ e. B.is_obj_not_found_err b.bucket (some e)) a u
        (suc b.operation_retries) (start B L b ctx) none (omega arith)
        (GoesOn-le L b.operation_retries (suc k) (start B L b ctx) (omega arith) g) w
