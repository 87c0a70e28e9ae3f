-- ===== src/Tsdb/Config/Bits.antt =====
-- Go's `&` on unsigned numbers of `w` bits, and the test for powers of two made with it.
use blockstorageingestor.Prelude.{
  ℕ, zero, suc, ◌+◌, ◌*◌, ◌/◌, ◌%◌, ◌^◌, ◌<◌, ◌≡◌, refl, ◌↔◌, ◌⊎◌, inl, inr, arith, nat_eq, str_eq,
}

-- `a & b` on the lowest `w` bits
unfoldable pub land : ℕ → ℕ → ℕ → ℕ
land zero a b = 0
land (suc w) a b = (a % 2) * (b % 2) + 2 * land w (a / 2) (b / 2)

pow_suc : (k : ℕ) → 2 ^ suc k ≡ 2 * 2 ^ k
pow_suc k = omega arith

parity : (a : ℕ) → (a % 2 ≡ 0) ⊎ (a % 2 ≡ 1)
parity a = omega arith

halved : (a w : ℕ) → a < 2 ^ suc w → a / 2 < 2 ^ w
halved a w h = omega (arith, pow_suc w)

land-same : (w a : ℕ) → a < 2 ^ w → land w a a ≡ a
unfolding land
land-same zero a h = omega arith
land-same (suc w) a h =
    rw (land-same w (a / 2) (halved a w h))
      (elim (parity a) [ inl p ↦ rw p (omega arith) | inr p ↦ rw p (omega arith) ])

abbrev pub IsPowerOfTwo : ℕ → Type 0
IsPowerOfTwo n = (k : ℕ) × (n ≡ 2 ^ k)

odd_power : (a k : ℕ) → a % 2 ≡ 0 → suc a ≡ 2 ^ k → a ≡ 0
odd_power a zero p e = omega arith
odd_power a (suc k) p e = omega (arith, pow_suc k)

even_power : (a k : ℕ) → a % 2 ≡ 1 → suc a ≡ 2 ^ k → IsPowerOfTwo (suc (a / 2))
even_power a zero p e = let no : ⊥ = omega arith in elim no [ ]
even_power a (suc k) p e = (k, omega (arith, pow_suc k))

-- The test for powers of two that Go code makes: `n & (n - 1) == 0`
pub land-pred : (w a : ℕ) → suc a < 2 ^ w → (land w (suc a) a ≡ 0) ↔ IsPowerOfTwo (suc a)
unfolding land
land-pred zero a h = ((λ _. (0, omega arith)), λ _. refl)
land-pred (suc w) a h = elim (parity a) [
  | inl p ↦
      let q : (suc a) / 2 ≡ a / 2 = omega arith in
      let low : a < 2 ^ suc w = omega arith in
      rw (q, p, land-same w (a / 2) (halved a w low))
        ((λ e. (0, omega arith)), λ (k, e). omega (arith, odd_power a k p e))
  | inr p ↦
      let q : (suc a) / 2 ≡ suc (a / 2) = omega arith in
      let d : (suc a) % 2 ≡ 0 = omega arith in
      let b : suc (a / 2) < 2 ^ w = omega (arith, pow_suc w) in
      let ih = land-pred w (a / 2) b in
      rw (q, p, d)
        (
          (λ e. let (k, f) = ih.0 (omega arith) in (suc k, omega (arith, pow_suc k))),
          λ (k, e). let z = ih.1 (even_power a k p e) in omega arith,
        )
]
