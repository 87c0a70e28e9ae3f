-- ===== src/Tsdb/BucketIndex/Migration/Copies.antt =====
-- Copies of objects, one after the other.
use blockstorageingestor.Prelude.{
  ◌≡◌, refl, sym, ◌∙◌, ◌≢◌, inl, inr, Bool, true, false, ◌||◌, Option, none, some, List, [], ◌∷◌,
  ◌++◌, arith, if◌then◌else◌, ◌==◌, nat_eq, Bool-cases, All, Str, str_beq_iff, str_eq,
}

abbrev pub or_keep {ℓ} : {A : Type ℓ} → Option A → Option A → Option A
or_keep none o = o
or_keep (some a) o = some a

abbrev pub View : Type 0
View = Str → Option Str

-- after the copy of an object from `src` to `dst`, if there is one
abbrev pub copy_one : Str × Str → View → View
copy_one p v m = if m == p.1 then or_keep (v p.0) (v m) else v m

abbrev pub copy_all : List (Str × Str) → View → View
copy_all [] v = v
copy_all (p ∷ ps) v = copy_all ps (copy_one p v)

pub copy_all-same :
    (ps : List (Str × Str)) (v w : View)
    → ((m : Str) → v m ≡ w m)
    → (m : Str) → copy_all ps v m ≡ copy_all ps w m
copy_all-same [] v w h m = h m
copy_all-same (p ∷ ps) v w h m =
    copy_all-same ps (copy_one p v) (copy_one p w) (λ n. rw (h n, h p.0) refl) m

pub copy_all-append :
    (ps qs : List (Str × Str)) (v : View) → copy_all (ps ++ qs) v ≡ copy_all qs (copy_all ps v)
copy_all-append [] qs v = refl
copy_all-append (p ∷ ps) qs v = copy_all-append ps qs (copy_one p v)

-- A place that no copy goes to is left alone.
pub copy_all-others :
    (ps : List (Str × Str)) (v : View) (m : Str)
    → All (λ p. (m == p.1) ≡ false) ps
    → copy_all ps v m ≡ v m
copy_all-others [] v m h = refl
copy_all-others (p ∷ ps) v m h = copy_all-others ps (copy_one p v) m h.1 ∙ rw (h.0) refl

-- `a` is the only source of copies to `b`, and no copy goes to it.
abbrev pub IsSource : Str → Str → List (Str × Str) → Type 0
IsSource a b = All (λ p. (p.1 ≡ b → p.0 ≡ a) × (a ≢ p.1))

abbrev pub goes_to : Str → List (Str × Str) → Bool
goes_to b [] = false
goes_to b (p ∷ ps) = b == p.1 || goes_to b ps

or_keep_twice {ℓ} : {A : Type ℓ} (o q : Option A) → or_keep o (or_keep o q) ≡ or_keep o q
or_keep_twice none q = refl
or_keep_twice (some a) q = refl

pub if_same {ℓ} : {A : Type ℓ} (b : Bool) (x : A) → (if b then x else x) ≡ x
if_same true x = refl
if_same false x = refl

copy_one-source :
    (p : Str × Str) (v : View) (a b : Str) (more : Bool)
    → (p.1 ≡ b → p.0 ≡ a)
    → a ≢ p.1
    → (if more then or_keep (copy_one p v a) (copy_one p v b) else copy_one p v b)
      ≡ (if b == p.1 || more then or_keep (v a) (v b) else v b)
copy_one-source p v a b more h k =
    let kept : copy_one p v a ≡ v a = ground (arith, str_beq_iff a p.1) in
    elim (Bool-cases (b == p.1)) [
      | inl e ↦
          rw (kept, e, h (sym ((str_beq_iff b p.1).0 e)), or_keep_twice (v a) (v b))
            (if_same more (or_keep (v a) (v b)))
      | inr e ↦ rw (kept, e) refl
    ]

pub copy_all-IsSource :
    (ps : List (Str × Str)) (v : View) (a b : Str)
    → IsSource a b ps
    → copy_all ps v b ≡ (if goes_to b ps then or_keep (v a) (v b) else v b)
copy_all-IsSource [] v a b h = refl
copy_all-IsSource (p ∷ ps) v a b h =
    copy_all-IsSource ps (copy_one p v) a b h.1 ∙ copy_one-source p v a b (goes_to b ps) h.0.0 h.0.1
