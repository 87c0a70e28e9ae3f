-- ===== src/Go/Sort/Laws.antt =====
-- What a search in a sorted list finds.
use blockstorageingestor.Prelude.{
  above, ℕ, zero, suc, ◌+◌, ◌/◌, ◌≤◌, ◌<◌, ◌≡◌, refl, ap, ◌∙◌, inl, inr, true, false, none, some,
  List, [], ◌∷◌, arith, ltb, ◌==◌, nat_eq, Bool-cases, Option-cases, length, get_elem?, contains,
  All, Str, str_beq_iff, str_eq,
}
use blockstorageingestor.Go.Flags.{str_leb}
use blockstorageingestor.Go.Sort.{reaches, search, search_strings}

str_leb_antisym : (s t : Str) → str_leb s t ≡ true → str_leb t s ≡ true → s ≡ t
unfolding str_leb
str_leb_antisym [] [] h k = refl
str_leb_antisym [] (d ∷ t) h k = let no : ⊥ = cc in elim no [ ]
str_leb_antisym (c ∷ s) [] h k = let no : ⊥ = cc in elim no [ ]
str_leb_antisym (c ∷ s) (d ∷ t) h k = ground (arith, str_leb_antisym s t)

str_leb_refl : (s : Str) → str_leb s s ≡ true
unfolding str_leb
str_leb_refl [] = refl
str_leb_refl (c ∷ s) = ground (arith, str_leb_refl s)

str_leb_trans : (s t u : Str) → str_leb s t ≡ true → str_leb t u ≡ true → str_leb s u ≡ true
unfolding str_leb
str_leb_trans [] t u h k = refl
str_leb_trans (c ∷ s) [] u h k = let no : ⊥ = cc in elim no [ ]
str_leb_trans (c ∷ s) (d ∷ t) [] h k = let no : ⊥ = cc in elim no [ ]
str_leb_trans (c ∷ s) (d ∷ t) (e ∷ u) h k = ground (arith, str_leb_trans s t u)

-- A sorted list: no element is before an earlier one.
abbrev pub IsSorted : List Str → Type 0
IsSorted [] = Unit
IsSorted (y ∷ ys) = All (λ z. str_leb y z ≡ true) ys × IsSorted ys

before_all :
    (y : Str) (ys : List Str) (i : ℕ) (z : Str)
    → All (λ z. str_leb y z ≡ true) ys
    → get_elem? ys i ≡ some z
    → str_leb y z ≡ true
before_all y [] i z p h = let no : ⊥ = cc in elim no [ ]
before_all y (x ∷ ys) zero z p h = cc (p.0, h)
before_all y (x ∷ ys) (suc i) z p h = before_all y ys i z p.1 h

-- a position behind one that reaches `x` reaches it too
reaches-IsSorted :
    (a : List Str) (x : Str) (h k : ℕ)
    → IsSorted a
    → h ≤ k
    → reaches a x h ≡ true
    → reaches a x k ≡ true
reaches-IsSorted [] x h k s l r = refl
reaches-IsSorted (y ∷ ys) x zero zero s l r = r
reaches-IsSorted (y ∷ ys) x (suc h) zero s l r = let no : ⊥ = omega arith in elim no [ ]
reaches-IsSorted (y ∷ ys) x (suc h) (suc k) s l r = reaches-IsSorted ys x h k s.1 (omega arith) r
reaches-IsSorted (y ∷ ys) x zero (suc k) s l r = elim (Option-cases (get_elem? ys k)) [
  | inl e ↦ rw (e, reaches) refl
  | inr (z, e) ↦ rw (e, reaches) (str_leb_trans x y z r (before_all y ys k z s.0 e))
]

ltb_ge : (i j : ℕ) → ltb i j ≡ false → j ≤ i
ltb_ge i j h = ground arith

ltb_lt : (i j : ℕ) → ltb i j ≡ true → i < j
ltb_lt i j h = ground arith

-- what a test on the positions finds out
module _ (a : List Str) (x : Str)
    (mono : (h k : ℕ) → h ≤ k → reaches a x h ≡ true → reaches a x k ≡ true) where
  abbrev IsSplit : ℕ → ℕ → Type 0
  IsSplit i j = ((h : ℕ) → h < i → reaches a x h ≡ false) × ((h : ℕ) → j ≤ h → reaches a x h ≡ true)

  not_before : (m h : ℕ) → reaches a x m ≡ false → h ≤ m → reaches a x h ≡ false
  not_before m h r l = elim (Bool-cases (reaches a x h)) [
    | inl e ↦ let no : ⊥ = cc (mono h m l e) in elim no [ ]
    | inr e ↦ e
  ]

  search-IsSplit :
      (fuel i j : ℕ)
      → j ≤ i + fuel
      → i ≤ j
      → IsSplit i j
      → IsSplit (search fuel a x i j) (search fuel a x i j)
  unfolding search
  search-IsSplit zero i j f l s = (s.0, λ h k. s.1 h (omega arith))
  search-IsSplit (suc fuel) i j f l s = elim (Bool-cases (ltb i j)) [
    | inr e ↦ rw (e, search) (s.0, λ h k. s.1 h (omega (arith, ltb_ge i j e)))
    | inl e ↦
        let lt = ltb_lt i j e in
        let m = (i + j) / 2 in
        elim (Bool-cases (reaches a x m)) [
          | inl r ↦
              rw (e, r, search)
                (search-IsSplit fuel i m (omega arith) (omega arith) (s.0, λ h k. mono m h k r))
          | inr r ↦
              rw (e, r, search)
                (search-IsSplit fuel (m + 1) j (omega arith) (omega arith)
                  ((λ h k. not_before m h r (omega arith)), s.1))
        ]
  ]

reaches-end : (a : List Str) (x : Str) (h : ℕ) → length a ≤ h → reaches a x h ≡ true
reaches-end [] x h l = refl
reaches-end (y ∷ ys) x zero l = let no : ⊥ = omega arith in elim no [ ]
reaches-end (y ∷ ys) x (suc h) l = reaches-end ys x h (omega arith)

-- In a sorted list the search finds the first position that is not before `x`.
pub search_strings-IsSplit :
    (a : List Str) (x : Str)
    → IsSorted a
    → let ix = search_strings a x in
      ((h : ℕ) → h < ix → reaches a x h ≡ false) × ((h : ℕ) → ix ≤ h → reaches a x h ≡ true)
unfolding search_strings
search_strings-IsSplit a x s =
    search-IsSplit a x (λ h k. reaches-IsSorted a x h k s) (length a) 0 (length a) (omega arith)
      (omega arith) ((λ h k. (let no : ⊥ = omega arith in elim no [ ])), reaches-end a x)

get_elem?-contains :
    (a : List Str) (x : Str) → contains a x ≡ true → (k : ℕ) × (get_elem? a k ≡ some x)
get_elem?-contains [] x h = let no : ⊥ = cc in elim no [ ]
get_elem?-contains (y ∷ ys) x h = elim (Bool-cases (y == x)) [
  | inl e ↦ (0, ap (λ t. some t) ((str_beq_iff y x).0 e))
  | inr e ↦ let (k, p) = get_elem?-contains ys x (ground (arith, e, h)) in (suc k, p)
]

pub contains-get_elem? :
    (a : List Str) (k : ℕ) (x : Str) → get_elem? a k ≡ some x → contains a x ≡ true
contains-get_elem? [] k x h = let no : ⊥ = cc in elim no [ ]
contains-get_elem? (y ∷ ys) zero x h = ground (arith, h, str_beq_iff y x)
contains-get_elem? (y ∷ ys) (suc k) x h = ground (arith, contains-get_elem? ys k x h)

pub get_elem?-length : (a : List Str) (k : ℕ) (x : Str) → get_elem? a k ≡ some x → k < length a
get_elem?-length [] k x h = let no : ⊥ = cc in elim no [ ]
get_elem?-length (y ∷ ys) zero x h = omega arith
get_elem?-length (y ∷ ys) (suc k) x h = omega (arith, get_elem?-length ys k x h)

get_elem?-IsSorted :
    (a : List Str) (i k : ℕ) (y z : Str)
    → IsSorted a
    → i ≤ k
    → get_elem? a i ≡ some y
    → get_elem? a k ≡ some z
    → str_leb y z ≡ true
get_elem?-IsSorted [] i k y z s l g h = let no : ⊥ = cc in elim no [ ]
get_elem?-IsSorted (w ∷ ws) zero zero y z s l g h =
    let same : y ≡ z = cc (g, h) in cc (same, str_leb_refl y)
get_elem?-IsSorted (w ∷ ws) (suc i) zero y z s l g h = let no : ⊥ = omega arith in elim no [ ]
get_elem?-IsSorted (w ∷ ws) zero (suc k) y z s l g h = cc (before_all w ws k z s.0 h, g)
get_elem?-IsSorted (w ∷ ws) (suc i) (suc k) y z s l g h =
    get_elem?-IsSorted ws i k y z s.1 (omega arith) g h

not_below : (i k : ℕ) → (k < i → ⊥) → i ≤ k
not_below i k h = elim (Bool-cases (ltb k i)) [
  | inl e ↦ let no : ⊥ = h (ltb_lt k i e) in elim no [ ]
  | inr e ↦ ltb_ge k i e
]

in_range :
    (a : List Str) (i k : ℕ) (x : Str) → get_elem? a i ≡ none → get_elem? a k ≡ some x → i ≤ k → ⊥
in_range [] i k x g h l = cc
in_range (y ∷ ys) zero k x g h l = cc
in_range (y ∷ ys) (suc i) zero x g h l = omega arith
in_range (y ∷ ys) (suc i) (suc k) x g h l = in_range ys i k x g h (omega arith)

-- The position that a search for an element finds holds it.
pub search_strings-contains :
    (a : List Str) (x : Str)
    → IsSorted a
    → contains a x ≡ true
    → get_elem? a (search_strings a x) ≡ some x
search_strings-contains a x s c =
    let ix = search_strings a x in
    let (below, above) = search_strings-IsSplit a x s in
    let (k, p) = get_elem?-contains a x c in
    let reached : reaches a x k ≡ true = rw (p, reaches) (str_leb_refl x) in
    let le : ix ≤ k = not_below ix k (λ l. cc (below k l, reached)) in
    elim (Option-cases (get_elem? a ix)) [
      | inl e ↦ let no : ⊥ = in_range a ix k x e p le in elim no [ ]
      | inr (y, e) ↦
          let up : str_leb x y ≡ true = rw (e, reaches) at (above ix (omega arith)) in
          e ∙ ap (λ t. some t) (str_leb_antisym y x (get_elem?-IsSorted a ix k y x s le e p) up)
    ]
