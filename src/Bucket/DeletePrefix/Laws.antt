-- ===== src/Bucket/DeletePrefix/Laws.antt =====
-- What `DeletePrefix` leaves, and what it counts.
use blockstorageingestor.Prelude.{
  ℕ, zero, suc, ◌+◌, ◌≤◌, ◌<◌, ◌≡◌, refl, sym, ap, ◌⊎◌, inl, inr, Bool, true, false, List, [], ◌∷◌,
  arith, ◌==◌, nat_eq, Bool-cases, Option-cases, length, All, Str, str_beq, str_beq_iff, str_eq,
}
use blockstorageingestor.Errors.{Result, ok}
use blockstorageingestor.Exec.{for_each}
use blockstorageingestor.Objstore.{Bucket}
use blockstorageingestor.Objstore.Lawful.{Reading, IsReliable, is_some}
use blockstorageingestor.Go.Strings.Laws.{has_prefix_trans, length-has_prefix}
use blockstorageingestor.Objstore.Listing.{
  as_dir-is_dir, is_dir, as_dir, below, covers, covered, Apart, IsEntry, IsListing,
}
use blockstorageingestor.Objstore.Listing.Removed.{
  Removed, Removed-none, Removed-both, Removed-as, Removed-one,
}
use blockstorageingestor.Bucket.DeletePrefix.{Tally, delete_entry, delete_prefix}

module _ (B : Bucket) (V : Reading B) (R : IsReliable B V) (H : IsListing B V) (b : B.Self)
    (ctx : B.Context) where
  -- No object's name is longer than `k`.
  abbrev pub Bounded : ℕ → B.State → Type 0
  Bounded k s = (m : Str) → is_some (V.view b s m) ≡ true → length m ≤ k

  -- A run that ends with no error and takes away a selection.
  record Takes (sel : Str → Bool) (s : B.State) (n : ℕ)
      (out : Result (Unit {0}) × (B.State × Tally)) : Type 0 where
    no_error : out.0 ≡ ok tt
    enough : out.1.1.ran_out ≡ false
    count : ℕ
    counted : out.1.1.result ≡ n + count
    removed : Removed B V b sel s out.1.0 count

  Bounded-Removed :
      (k : ℕ) (sel : Str → Bool) (s t : B.State) (n : ℕ)
      → Removed B V b sel s t n
      → Bounded k s
      → Bounded k t
  Bounded-Removed k sel s t n p h m q = h m (ground (arith, p.view m))

  -- Each directory of a length beyond `l` is emptied by `inner`.
  abbrev Empties : ℕ → ℕ → (Str → B.State → Result (Unit {0}) × (B.State × Tally)) → Type 0
  Empties k l inner =
      (e : Str) (s : B.State)
      → is_dir e ≡ true
      → l < length e
      → length e ≤ k
      → Bounded k s
      → Takes (below e) s 0 (inner e s)

  module _ (k l : ℕ) (inner : Str → B.State → Result (Unit {0}) × (B.State × Tally))
      (ih : Empties k l inner) where
    -- what is known of an entry that is still to come
    abbrev Comes : B.State → Str → Type 0
    Comes s e =
        (is_dir e ≡ false → is_some (V.view b s e) ≡ true)
        × (is_dir e ≡ true → (l < length e) × (length e ≤ k))

    entry-Takes :
        (e : Str) (s : B.State) (x : Tally)
        → x.ran_out ≡ false
        → Comes s e
        → Bounded k s
        → Takes (covers e) s x.result (delete_entry B inner b ctx e (s, x))
    unfolding delete_entry covers
    entry-Takes e s x r c h = elim (Bool-cases (is_dir e)) [
      | inl d ↦
          let p = ih e s d (c.1 d).0 (c.1 d).1 h in
          rw (d, delete_entry, covers)
            (record {
              no_error = p.no_error;
              enough = ground (arith, r, p.enough);
              count = p.count;
              counted = omega (arith, p.counted);
              removed = p.removed;
            })
      | inr d ↦ elim (Option-cases (V.view b s e)) [
        | inl n ↦ let no : ⊥ = ground (arith, c.0 d) in elim no [ ]
        | inr (o, v) ↦
            rw (d, delete_entry, covers, R.delete_present b ctx e s o v)
              (record {
                no_error = refl;
                enough = r;
                count = 1;
                counted = refl;
                removed = Removed-one B V b R ctx e o s v;
              })
      ]
    ]

    Comes-after :
        (e : Str) (s t : B.State) (n : ℕ) (es : List Str)
        → Removed B V b (covers e) s t n
        → All (λ x. covers e x ≡ false) es
        → All (Comes s) es
        → All (Comes t) es
    Comes-after e s t n [] p a c = tt
    Comes-after e s t n (x ∷ es) p a c =
        (((λ d. ground (arith, p.view x, a.0, c.0.0 d)), c.0.1), Comes-after e s t n es p a.1 c.1)

    visit-Takes :
        (es : List Str) (s : B.State) (x : Tally)
        → x.ran_out ≡ false
        → All (Comes s) es
        → Apart es
        → Bounded k s
        → Takes (covered es) s x.result (for_each es (delete_entry B inner b ctx) (s, x))
    unfolding for_each
    visit-Takes [] s x r c a h = record {
      no_error = refl;
      enough = r;
      count = 0;
      counted = omega arith;
      removed = Removed-none B V b s;
    }
    visit-Takes (e ∷ es) s x r c a h =
        let p = entry-Takes e s x r c.0 h in
        let t = (delete_entry B inner b ctx e (s, x)).1.0 in
        let y = (delete_entry B inner b ctx e (s, x)).1.1 in
        let q =
          visit-Takes es t y p.enough (Comes-after e s t p.count es p.removed a.0 c.1) a.1
            (Bounded-Removed k (covers e) s t p.count p.removed h) in
        rw (p.no_error, for_each)
          (record {
            no_error = q.no_error;
            enough = q.enough;
            count = p.count + q.count;
            counted = omega (arith, p.counted, q.counted);
            removed =
                Removed-both B V b (covers e) (covered es) s t _ p.count q.count p.removed
                  q.removed;
          })

  All-Comes :
      (k : ℕ) (s : B.State) (d : Str)
      → Bounded k s
      → (es : List Str) → All (IsEntry B V b s d) es
      → All
          (λ e.
            (is_dir e ≡ false → is_some (V.view b s e) ≡ true)
            × (is_dir e ≡ true → (length (as_dir d) < length e) × (length e ≤ k)))
          es
  All-Comes k s d h [] l = tt
  All-Comes k s d h (e ∷ es) l = (
    (l.0.2, λ x. let (m, p, q) = l.0.3 x in (l.0.1, omega (arith, length-has_prefix m e p, h m q))),
    All-Comes k s d h es l.1,
  )

  both_ways : (x y : Bool) → (x ≡ true → y ≡ true) → (y ≡ true → x ≡ true) → x ≡ y
  both_ways true y f g = sym (f refl)
  both_ways false true f g = g refl
  both_ways false false f g = refl

  entry-ne-nil : (d e : Str) → length d < length e → (e == []) ≡ false
  unfolding str_beq
  entry-ne-nil d [] h = let no : ⊥ = omega arith in elim no [ ]
  entry-ne-nil d (c ∷ e) h = refl

  covered-below :
      (s : B.State) (d m : Str) (es : List Str)
      → All (IsEntry B V b s d) es
      → covered es m ≡ true
      → below d m ≡ true
  unfolding below covers
  covered-below s d m [] l h = cc
  covered-below s d m (e ∷ es) l h = elim (Bool-cases (is_dir e)) [
    | inl x ↦ ground (
      arith,
      covered-below s d m es l.1,
      as_dir-is_dir e x,
      has_prefix_trans m e (as_dir d),
      l.0.0,
    )
    | inr x ↦
        ground (
          arith,
          covered-below s d m es l.1,
          str_beq_iff m e,
          l.0.0,
          entry-ne-nil (as_dir d) e l.0.1,
        )
  ]

  delete_prefix-Takes :
      (fuel k : ℕ) (d : Str) (s : B.State)
      → Bounded k s
      → k < length (as_dir d) + fuel
      → (length (as_dir d) ≤ k) ⊎ (0 < fuel)
      → Takes (below d) s 0 (delete_prefix B fuel b ctx d s)
  unfolding delete_prefix
  delete_prefix-Takes zero k d s h f g = let no : ⊥ = omega arith in elim no [ ]
  delete_prefix-Takes (suc fuel) k d s h f g =
      let es = V.entries b s d in
      let l = length (as_dir d) in
      let inner = delete_prefix B fuel b ctx in
      let deeper : Empties k l inner = λ e t dir longer short bounded.
        delete_prefix-Takes fuel k e t bounded (omega (arith, ap length (as_dir-is_dir e dir)))
          (inl (omega (arith, ap length (as_dir-is_dir e dir)))) in
      let q =
        visit-Takes k l inner deeper es s (record { result = 0; ran_out = false }) refl
          (All-Comes k s d h es (H.listed b s d)) (H.apart b s d) h in
      rw
        (R.iter-entries b Tally ctx d (delete_entry B inner b ctx) [] s
          (record { result = 0; ran_out = false }))
        (record {
          no_error = q.no_error;
          enough = q.enough;
          count = q.count;
          counted = q.counted;
          removed =
              Removed-as B V b (covered es) (below d) s _ q.count
                (λ m p.
                  both_ways _ _ (covered-below s d m es (H.listed b s d)) (H.complete b s d m p))
                q.removed;
        })

  -- Over a reliable store whose listings are complete, and with fuel beyond the longest name:
  -- `DeletePrefix` ends with no error; the objects below the directory, and no others, are gone
  -- (an object whose name ends in a slash stays); and it returns the number of those that there were.
  pub delete_prefix_lem :
      (k : ℕ) (d : Str) (s : B.State)
      → Bounded k s
      → let out = delete_prefix B (suc k) b ctx d s in
        (out.0 ≡ ok tt)
        × (out.1.1.ran_out ≡ false)
        × Removed B V b (below d) s out.1.0 out.1.1.result
  delete_prefix_lem k d s h =
      let p = delete_prefix-Takes (suc k) k d s h (omega arith) (inr (omega arith)) in
      let n : (delete_prefix B (suc k) b ctx d s).1.1.result ≡ p.count = omega (arith, p.counted) in
      (p.no_error, p.enough, rw n p.removed)
