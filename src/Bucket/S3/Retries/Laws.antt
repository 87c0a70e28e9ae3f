-- ===== src/Bucket/S3/Retries/Laws.antt =====
-- What a call with retries returns.
use blockstorageingestor.Prelude.{
  ℤ, ℕ, zero, suc, ◌≤◌, ◌<◌, ◌≡◌, refl, sym, ◌⊎◌, inl, inr, Bool, true, false, Option, none, some,
  arith, nat_eq, Bool-cases, Option-cases, str_eq,
}
use blockstorageingestor.Errors.{Error, Result, ok, err, Result-cases}
use blockstorageingestor.Exec.{Exec}
use blockstorageingestor.Objstore.{Bucket}
use blockstorageingestor.Bucket.S3.Retries.{
  Backoff, BucketWithRetries, ended, retry_loop, start, retry,
}

-- `HasLeft k r`: the backoff `r` goes on for at most `k` more attempts. One that is made with a
-- positive number has at most that many left, and each wait uses one.
pub record IsBackoff {Context : Type 0} (L : Backoff Context) : Type 1 where
  pub HasLeft : ℕ → L.Retries → Type 0
  pub new-HasLeft : (ctx : Context) (lo hi : ℤ) (n : ℕ) → 0 < n → HasLeft n (L.new ctx lo hi n)
  pub wait-HasLeft :
      (k : ℕ) (r : L.Retries)
      → HasLeft k r
      → L.ongoing r ≡ true
      → (j : ℕ) × (k ≡ suc j) × HasLeft j (L.wait r)

-- the backoff behind so many waits
abbrev pub waited : {Context : Type 0} (L : Backoff Context) → ℕ → L.Retries → L.Retries
waited L zero r = r
waited L (suc k) r = waited L k (L.wait r)

module _ {T A : Type 0} (f : Exec T A) where
  -- the state behind so many attempts, each from the state that the last one left
  abbrev pub after : ℕ → T → T
  after zero t = t
  after (suc k) t = after k (f t).1

module _ (B : Bucket) (L : Backoff B.Context) {T A : Type 0} (zero_value : A)
    (not_found : Error → Bool) (f : Exec T A) where
  -- The first `k` attempts are made while the backoff goes on, and fail otherwise than for a missing
  -- object.
  abbrev pub HaveFailed : ℕ → L.Retries → T → Type 0
  HaveFailed k r t =
      (i : ℕ)
      → i < k
      → (L.ongoing (waited L i r) ≡ true)
        × ((e : Error) × ((f (after f i t)).0 ≡ err e) × (not_found e ≡ false))

  -- The next attempt decides the outcome: it succeeds, or misses the object.
  abbrev pub IsDecided : ℕ → L.Retries → T → Result A × T → Type 0
  IsDecided k r t out =
      (L.ongoing (waited L k r) ≡ true)
      × (out ≡ f (after f k t))
      × (((a : A) × (out.0 ≡ ok a)) ⊎ ((e : Error) × (out.0 ≡ err e) × (not_found e ≡ true)))

  -- What is returned once the backoff has ended behind `k` attempts: the error of the last one, or
  -- without an attempt the backoff's error if there is one.
  abbrev pub IsLast : ℕ → L.Retries → Option Error → T → Result A → Type 0
  IsLast (suc j) r last t o = (e : Error) × ((f (after f j t)).0 ≡ err e) × (o ≡ err e)
  IsLast zero r (some e) t o = o ≡ err e
  IsLast zero r none t o =
      ((e : Error) × (L.err r ≡ some e) × (o ≡ err e)) ⊎ ((L.err r ≡ none) × (o ≡ ok zero_value))

  abbrev pub HasEnded : ℕ → L.Retries → Option Error → T → Result A × T → Type 0
  HasEnded k r last t out =
      (L.ongoing (waited L k r) ≡ false) × (out.1 ≡ after f k t) × IsLast k r last t out.0

  abbrev pub Attempts : ℕ → L.Retries → Option Error → T → Result A × T → Type 0
  Attempts n r last t out =
      (k : ℕ) × (k ≤ n)
      × HaveFailed k r t
      × (((k < n) × IsDecided k r t out) ⊎ HasEnded k r last t out)

  none-HaveFailed : (r : L.Retries) (t : T) → HaveFailed 0 r t
  none-HaveFailed r t i h = let no : ⊥ = omega arith in elim no [ ]

  more-HaveFailed :
      (k : ℕ) (r : L.Retries) (t : T) (e : Error)
      → L.ongoing r ≡ true
      → (f t).0 ≡ err e
      → not_found e ≡ false
      → HaveFailed k (L.wait r) (f t).1
      → HaveFailed (suc k) r t
  more-HaveFailed k r t e p q m h zero l = (p, (e, q, m))
  more-HaveFailed k r t e p q m h (suc i) l = h i (omega arith)

  more-IsLast :
      (k : ℕ) (r : L.Retries) (last : Option Error) (t : T) (e : Error) (o : Result A)
      → (f t).0 ≡ err e
      → IsLast k (L.wait r) (some e) (f t).1 o
      → IsLast (suc k) r last t o
  more-IsLast zero r last t e o q h = (e, q, h)
  more-IsLast (suc k) r last t e o q h = h

  more-Attempts :
      (n : ℕ) (r : L.Retries) (last : Option Error) (t : T) (e : Error) (out : Result A × T)
      → L.ongoing r ≡ true
      → (f t).0 ≡ err e
      → not_found e ≡ false
      → Attempts n (L.wait r) (some e) (f t).1 out
      → Attempts (suc n) r last t out
  more-Attempts n r last t e out p q m (k, l, h, inl (s, d)) =
      (suc k, omega arith, more-HaveFailed k r t e p q m h, inl (omega arith, d))
  more-Attempts n r last t e out p q m (k, l, h, inr (w, u, x)) = (
    suc k,
    omega arith,
    more-HaveFailed k r t e p q m h,
    inr (w, u, more-IsLast k r last t e out.0 q x),
  )

  ended-IsLast :
      (r : L.Retries) (last : Option Error) (t : T)
      → IsLast 0 r last t (ended B L zero_value not_found f r last)
  unfolding ended
  ended-IsLast r (some e) t = refl
  ended-IsLast r none t = elim (Option-cases (L.err r)) [
    | inl h ↦ inr (h, rw (ended, h) refl)
    | inr (e, h) ↦ inl (e, h, rw (ended, h) refl)
  ]

  module _ (K : IsBackoff L) where
    retry_loop-Attempts :
        (m n : ℕ) (r : L.Retries) (last : Option Error) (t : T)
        → n < m
        → K.HasLeft n r
        → Attempts n r last t (retry_loop B L zero_value not_found f m r last t)
    unfolding retry_loop
    retry_loop-Attempts zero n r last t l h = let no : ⊥ = omega arith in elim no [ ]
    retry_loop-Attempts (suc m) n r last t l h = elim (Bool-cases (L.ongoing r)) [
      | inr p ↦
          rw (p, retry_loop)
            (0, omega arith, none-HaveFailed r t, inr (p, refl, ended-IsLast r last t))
      | inl p ↦
          let (j, e, w) = K.wait-HasLeft n r h p in
          elim (Result-cases (f t).0) [
            | inl (a, q) ↦
                rw (p, retry_loop, q)
                  (
                    0,
                    omega arith,
                    none-HaveFailed r t,
                    inl (omega arith, (p, (λ i. (sym q i, (f t).1)), inl (a, refl))),
                  )
            | inr (x, q) ↦ elim (Bool-cases (not_found x)) [
              | inl y ↦
                  rw (p, retry_loop, q, y)
                    (
                      0,
                      omega arith,
                      none-HaveFailed r t,
                      inl (omega arith, (p, (λ i. (sym q i, (f t).1)), inr (x, refl, y))),
                    )
              | inr y ↦
                  rw (p, retry_loop, q, y, e)
                    (more-Attempts j r last t x
                      (retry_loop B L zero_value not_found f m (L.wait r) (some x) (f t).1) p q y
                      (retry_loop-Attempts m j (L.wait r) (some x) (f t).1 (omega arith) w))
            ]
          ]
    ]

module _ (B : Bucket) (L : Backoff B.Context) (b : BucketWithRetries B L) (ctx : B.Context)
    {T A : Type 0} (zero_value : A) (f : Exec T A) (t : T) where
  -- With a backoff that ends and at least one attempt configured, a call ends, after at most as many
  -- attempts: there is a number of first attempts that failed otherwise than for a missing object,
  -- each made while the backoff went on, from the state that the one before left. Then either the
  -- next attempt succeeds or misses the object, and its outcome is the call's, or the backoff has
  -- ended, and the call returns the last attempt's error, or without an attempt the backoff's.
  pub retry-Attempts :
      IsBackoff L
      → 0 < b.operation_retries
      → Attempts B L zero_value
          (λ e. B.is_obj_not_found_err b.bucket (some e))
          f
          b.operation_retries
          (start B L b ctx)
          none
          t
          (retry B L b ctx zero_value f t)
  unfolding retry start
  retry-Attempts K h =
      retry_loop-Attempts B L zero_value (λ e. B.is_obj_not_found_err b.bucket (some e)) f K
        (suc b.operation_retries) b.operation_retries (start B L b ctx) none t (omega arith)
        (K.new-HasLeft ctx b.retry_min_backoff b.retry_max_backoff b.operation_retries h)
