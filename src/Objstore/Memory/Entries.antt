-- ===== src/Objstore/Memory/Entries.antt =====
-- The bucket in memory lists its directories as the buckets of Thanos do.
use blockstorageingestor.Prelude.{
  ℕ, ◌<◌, ◌≡◌, refl, ◌⊎◌, inl, inr, true, false, some, List, [], ◌∷◌, ◌++◌, append-nil, arith,
  nat_beq, nat_beq_iff, ◌==◌, nat_eq, Bool-cases, Option-cases, length, length-append, contains,
  All, Str, str_beq, str_beq_iff, str_eq,
}
use blockstorageingestor.Go.Strings.{has_prefix, has_suffix, behind}
use blockstorageingestor.Objstore.Lawful.{is_some}
use blockstorageingestor.Objstore.Listing.{
  is_dir, as_dir, as_dir-is_dir, is_object, below, covers, covered, Apart, IsListing,
}
use blockstorageingestor.Objstore.Memory.Store.{
  Objects, lookup, first_part, listed, memory, memory_reading,
}
use blockstorageingestor.Objstore.Memory.Listing.{
  behind-some, behind-has_prefix, has_prefix-append, has_prefix-append_both, is_dir-append,
  first_part-whole, first_part-prefix, first_part-is_dir,
}

-- A directory's name: the root's, or one with a slash.
abbrev IsRoot : Str → Type 0
IsRoot d = (d ≡ []) ⊎ (is_dir d ≡ true)

as_dir-IsRoot : (d : Str) → IsRoot (as_dir d)
unfolding as_dir has_suffix str_beq
as_dir-IsRoot [] = inl refl
as_dir-IsRoot (c ∷ []) = inr (ground arith)
as_dir-IsRoot (c ∷ d ∷ s) = elim (as_dir-IsRoot (d ∷ s)) [
  | inl h ↦ let no : ⊥ = as_dir-cons d s h in elim no [ ]
  | inr h ↦ inr (ground (arith, h))
]
  where
    as_dir-cons : (d : ℕ) (s : Str) → as_dir (d ∷ s) ≡ [] → ⊥
    as_dir-cons d [] h = ground arith
    as_dir-cons d (e ∷ s) h = cc

first_part-cons : (x : ℕ) (s : Str) → (t : Str) × (first_part (x ∷ s) ≡ x ∷ t)
unfolding first_part
first_part-cons x s = elim (Bool-cases (nat_beq x b'/')) [
  | inl h ↦ ([], ground (arith, h))
  | inr h ↦ (first_part s, ground (arith, h))
]

is_dir-first_part :
    (d : Str) (x : ℕ) (s : Str) → is_dir (d ++ first_part (x ∷ s)) ≡ is_dir (first_part (x ∷ s))
is_dir-first_part d x s = let (t, h) = first_part-cons x s in rw h (is_dir-append d x t)

-- What is behind the directory in an entry's name.
abbrev IsPart : Str → Str → Type 0
IsPart d e = (x : ℕ) × (s : Str) × (e ≡ d ++ first_part (x ∷ s))

-- What one more object does to the listing of a directory.
data Step (n : Str) (d : Str) (rest : List Str) (all : List Str) : Type 0 where
  outside : ((r : Str) → n ≡ d ++ r → r ≡ []) → all ≡ rest → Step n d rest all
  known :
      (x : ℕ) (s : Str)
      → n ≡ d ++ x ∷ s
      → contains rest (d ++ first_part (x ∷ s)) ≡ true
      → all ≡ rest
      → Step n d rest all
  fresh :
      (x : ℕ) (s : Str)
      → n ≡ d ++ x ∷ s
      → contains rest (d ++ first_part (x ∷ s)) ≡ false
      → all ≡ (d ++ first_part (x ∷ s)) ∷ rest
      → Step n d rest all

behind-append : (d r : Str) → behind (d ++ r) d ≡ some r
unfolding behind
behind-append [] r = refl
behind-append (c ∷ d) r = ground (arith, behind-append d r, nat_beq_iff c c)

listed-Step : (n c : Str) (os : Objects) (d : Str) → Step n d (listed os d) (listed ((n, c) ∷ os) d)
unfolding listed
listed-Step n c os d = elim (Option-cases (behind n d)) [
  | inl h ↦ outside (λ r e. cc (behind-append d r)) (rw (h, listed) refl)
  | inr ([], h) ↦ outside (λ r e. cc (behind-append d r)) (rw (h, listed) refl)
  | inr (x ∷ s, h) ↦ elim (Bool-cases (contains (listed os d) (d ++ first_part (x ∷ s)))) [
    | inl k ↦ known x s (behind-some n d (x ∷ s) h) k (rw (h, k, listed) refl)
    | inr k ↦ fresh x s (behind-some n d (x ∷ s) h) k (rw (h, k, listed) refl)
  ]
]

listed-IsPart : (os : Objects) (d : Str) → All (IsPart d) (listed os d)
unfolding listed
listed-IsPart [] d = tt
listed-IsPart ((n, c) ∷ os) d = elim (listed-Step n c os d) [
  | outside g h ↦ rw h (listed-IsPart os d)
  | known x s g k h ↦ rw h (listed-IsPart os d)
  | fresh x s g k h ↦ rw h ((x, s, refl), listed-IsPart os d)
]

covers-part :
    (d x : Str) → (e : Str) → IsPart d x → IsPart d e → (e == x) ≡ false → covers e x ≡ false
unfolding covers below
covers-part d x e (a, s, p) (b, t, q) h = elim (Bool-cases (is_dir e)) [
  | inl k ↦ ground (
    arith,
    as_dir-is_dir e k,
    is_dir-first_part d a s,
    is_dir-first_part d b t,
    has_prefix-append_both d (first_part (a ∷ s)) (first_part (b ∷ t)),
    first_part-is_dir (a ∷ s) (first_part (b ∷ t)),
  )
  | inr k ↦ ground (arith, str_beq_iff e x, str_beq_iff x e)
]

covers-parts :
    (d e : Str)
    → IsPart d e
    → (es : List Str) → All (IsPart d) es
    → contains es e ≡ false
    → All (λ x. covers e x ≡ false) es
covers-parts d e p [] l h = tt
covers-parts d e p (x ∷ es) l h = (
  covers-part d x e l.0 p (ground (arith, str_beq_iff e x, str_beq_iff x e)),
  covers-parts d e p es l.1 (ground arith),
)

listed-Apart : (os : Objects) (d : Str) → Apart (listed os d)
unfolding listed
listed-Apart [] d = tt
listed-Apart ((n, c) ∷ os) d = elim (listed-Step n c os d) [
  | outside g h ↦ rw h (listed-Apart os d)
  | known x s g k h ↦ rw h (listed-Apart os d)
  | fresh x s g k h ↦ rw h (
    covers-parts d (d ++ first_part (x ∷ s)) (x, s, refl) (listed os d) (listed-IsPart os d) k,
    listed-Apart os d,
  )
]

covered-contains :
    (es : List Str) (e m : Str) → contains es e ≡ true → covers e m ≡ true → covered es m ≡ true
covered-contains [] e m h k = cc
covered-contains (x ∷ es) e m h k = ground (arith, covered-contains es e m, str_beq_iff x e)

-- An object below a directory is covered by its first component there.
covers-first_part :
    (d : Str) (x : ℕ) (s : Str)
    → is_object (d ++ x ∷ s) ≡ true
    → covers (d ++ first_part (x ∷ s)) (d ++ x ∷ s) ≡ true
unfolding covers below
covers-first_part d x s h = elim (Bool-cases (is_dir (first_part (x ∷ s)))) [
  | inl k ↦ ground (
    arith,
    as_dir-is_dir (d ++ first_part (x ∷ s)),
    is_dir-first_part d x s,
    has_prefix-append_both d (x ∷ s) (first_part (x ∷ s)),
    first_part-prefix (x ∷ s),
  )
  | inr k ↦ ground (
    arith,
    is_dir-first_part d x s,
    first_part-whole (x ∷ s) k,
    str_beq_iff (d ++ x ∷ s) (d ++ x ∷ s),
  )
]

-- A directory's own name is no object's.
root-is_object : (d : Str) → IsRoot d → is_object (d ++ []) ≡ false
unfolding str_beq has_suffix
root-is_object d h = ground (arith, append-nil d)

listed-covered :
    (os : Objects) (d m : Str)
    → IsRoot d
    → is_some (lookup os m) ≡ true
    → has_prefix m d ≡ true
    → is_object m ≡ true
    → covered (listed os d) m ≡ true
unfolding listed lookup
listed-covered [] d m r h p o = cc
listed-covered ((n, c) ∷ os) d m r h p o = elim (Bool-cases (m == n)) [
  | inl a ↦ elim (listed-Step n c os d) [
    | outside g k ↦
        let (t, e) = behind-has_prefix m d p in
        let f = behind-some m d t e in ground (arith, g t, root-is_object d r, str_beq_iff m n)
    | known x s g k e ↦ rw e (
        covered-contains (listed os d) (d ++ first_part (x ∷ s)) m k
          (ground (arith, covers-first_part d x s, str_beq_iff m n)))
    | fresh x s g k e ↦ rw e (ground (arith, covers-first_part d x s, str_beq_iff m n))
  ]
  | inr a ↦
      let ih = listed-covered os d m r (ground arith) p o in
      elim (listed-Step n c os d) [
        | outside g k ↦ rw k ih
        | known x s g k e ↦ rw e ih
        | fresh x s g k e ↦ rw e (ground arith)
      ]
]

-- `IsEntry` at the name of the directory with its slash
abbrev IsListed : Objects → Str → Str → Type 0
IsListed os d e =
    (has_prefix e d ≡ true)
    × (length d < length e)
    × (is_dir e ≡ false → is_some (lookup os e) ≡ true)
    × (is_dir e ≡ true → (m : Str) × (has_prefix m e ≡ true) × (is_some (lookup os m) ≡ true))

lookup-more :
    (n c : Str) (os : Objects) (m : Str)
    → is_some (lookup os m) ≡ true
    → is_some (lookup ((n, c) ∷ os) m) ≡ true
unfolding lookup
lookup-more n c os m h = ground arith

IsListed-more :
    (n c : Str) (os : Objects) (d : Str) (es : List Str)
    → All (IsListed os d) es
    → All (IsListed ((n, c) ∷ os) d) es
IsListed-more n c os d [] l = tt
IsListed-more n c os d (e ∷ es) l = (
  (
    l.0.0,
    l.0.1,
    λ h. lookup-more n c os e (l.0.2 h),
    λ h. let (m, p, q) = l.0.3 h in (m, p, lookup-more n c os m q),
  ),
  IsListed-more n c os d es l.1,
)

lookup-head : (n c : Str) (os : Objects) → is_some (lookup ((n, c) ∷ os) n) ≡ true
unfolding lookup
lookup-head n c os = ground (arith, str_beq_iff n n)

first_part-IsListed :
    (c : Str) (os : Objects) (d : Str) (x : ℕ) (s : Str)
    → IsListed ((d ++ x ∷ s, c) ∷ os) d (d ++ first_part (x ∷ s))
first_part-IsListed c os d x s = (
  has_prefix-append d (first_part (x ∷ s)),
  (let (t, h) = first_part-cons x s in rw h (omega (arith, length-append {0} d (x ∷ t)))),
  λ h. rw (first_part-whole (x ∷ s) (cc (is_dir-first_part d x s))) (lookup-head (d ++ x ∷ s) c os),
  λ h. (
    d ++ x ∷ s,
    cc (has_prefix-append_both d (x ∷ s) (first_part (x ∷ s)), first_part-prefix (x ∷ s)),
    lookup-head (d ++ x ∷ s) c os,
  ),
)

listed-IsListed : (os : Objects) (d : Str) → All (IsListed os d) (listed os d)
unfolding listed
listed-IsListed [] d = tt
listed-IsListed ((n, c) ∷ os) d =
    let ih = IsListed-more n c os d (listed os d) (listed-IsListed os d) in
    elim (listed-Step n c os d) [
      | outside g k ↦ rw k ih
      | known x s g k e ↦ rw e ih
      | fresh x s g k e ↦ rw e (rw g (first_part-IsListed c os d x s), ih)
    ]

pub memory-IsListing : IsListing memory memory_reading
unfolding below
memory-IsListing = record {
  listed = λ b s d. listed-IsListed s (as_dir d);
  complete = λ b s d m h k.
      listed-covered s (as_dir d) m (as_dir-IsRoot d) h (ground arith) (ground arith);
  apart = λ b s d. listed-Apart s (as_dir d);
}
