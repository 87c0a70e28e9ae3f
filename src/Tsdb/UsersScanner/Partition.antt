-- ===== src/Tsdb/UsersScanner/Partition.antt =====
-- The loop that removes users in place is a partition of the listing, in its order.
use blockstorageingestor.Prelude.{
  ◌+◌, ◌≡◌, refl, ap, Bool, true, false, List, [], ◌∷◌, ◌++◌, map, append-nil, append_assoc, arith,
  nat_eq, length, length-append, select, get_elem?-append, Str, str_eq,
}
use blockstorageingestor.Errors.{Error, Result, ok, err}
use blockstorageingestor.Objstore.{Bucket}
use blockstorageingestor.Tsdb.UsersScanner.{
  UsersScanner, Verdict, disowned, kept, marked, remove_at, check, scan_loop, add_user, split_users,
  scan_users,
}

remove_at-append {ℓ} :
    {A : Type ℓ} (xs : List A) (y : A) (ys : List A)
    → remove_at (xs ++ y ∷ ys) (length xs) ≡ xs ++ ys
remove_at-append [] y ys = refl
remove_at-append (x ∷ xs) y ys = ap (λ t. x ∷ t) (remove_at-append xs y ys)

abbrev pub is_kept : Verdict → Bool
is_kept kept = true
is_kept _ = false

abbrev pub is_marked : Verdict → Bool
is_marked marked = true
is_marked _ = false

module _ (B : Bucket) (sc : UsersScanner B) (ctx : B.Context) where
  -- Each user of a list is checked once, in order; the checks may change the state.
  unfoldable pub verdicts : List Str → B.State → List (Str × Verdict) × B.State
  verdicts [] s = ([], s)
  verdicts (u ∷ us) s =
      let (v, t) = check B sc ctx u s in let (vs, t') = verdicts us t in ((u, v) ∷ vs, t')

  unfoldable pub users_with : (Verdict → Bool) → List (Str × Verdict) → List Str
  users_with p vs = map (λ (uv : Str × Verdict). uv.0) (select (λ uv. p uv.1) vs)

  -- both lists, after `done` and `deleted`
  outcome : List Str → List Str → List (Str × Verdict) × B.State → (List Str × List Str) × B.State
  unfolding users_with
  outcome done deleted (vs, t) =
      ((done ++ users_with is_kept vs, deleted ++ users_with is_marked vs), t)

  scan_loop-verdicts :
      (done rest deleted : List Str) (s : B.State)
      → scan_loop B sc ctx (length rest) (done ++ rest) (length done) deleted s
        ≡ outcome done deleted (verdicts rest s)
  unfolding scan_loop verdicts outcome
  scan_loop-verdicts done [] deleted s = rw (append-nil, append-nil) refl
  scan_loop-verdicts done (u ∷ rest) deleted s =
      rw (get_elem?-append done u rest, scan_loop)
        (split (check B sc ctx u s).0 (check B sc ctx u s).1
          (λ d l t. scan_loop-verdicts d rest l t))
    where
      split :
          (v : Verdict) (t : B.State)
          → ((d l : List Str) (t : B.State)
              → scan_loop B sc ctx (length rest) (d ++ rest) (length d) l t
                ≡ outcome d l (verdicts rest t))
          → ◌≡◌ {A = (List Str × List Str) × B.State}
              (elim v [
                | disowned ↦
                    scan_loop B sc ctx
                      (length rest)
                      (remove_at (done ++ u ∷ rest) (length done))
                      (length done)
                      deleted
                      t
                | marked ↦
                    scan_loop B sc ctx
                      (length rest)
                      (remove_at (done ++ u ∷ rest) (length done))
                      (length done)
                      (deleted ++ u ∷ [])
                      t
                | kept ↦
                    scan_loop B sc ctx (length rest) (done ++ u ∷ rest) (length done + 1) deleted t
              ])
              (outcome done deleted ((u, v) ∷ (verdicts rest t).0, (verdicts rest t).1))
      split disowned t ih = rw (remove_at-append done u rest) (ih done deleted t)
      split marked t ih =
          rw (remove_at-append done u rest, ih done (deleted ++ u ∷ []) t) (rw append_assoc refl)
      split kept t ih =
          let len : length done + 1 ≡ length (done ++ u ∷ []) =
            omega (arith, length-append done (u ∷ [])) in
          rw (len, ← append_assoc done (u ∷ []) rest, ih (done ++ u ∷ []) deleted t)
            (rw append_assoc refl)

  -- The users that the listing gives, whatever the bucket.
  abbrev pub listing : B.State → Result (Unit {0}) × (B.State × List Str)
  listing s = B.iter sc.bucket_client (List Str) ctx [] (add_user B) [] (s, [])

  -- Over any bucket: the error of the listing is that of the scan. If there is none, each listed
  -- user is checked once, in the order of the listing; the scan returns, in that order, those that
  -- were kept and those that were found marked, and drops the disowned.
  pub scan_users_partition :
      (s : B.State)
      → ((e : Error) → (listing s).0 ≡ err e → scan_users B sc ctx s ≡ (err e, (listing s).1.0))
        × ((listing s).0 ≡ ok tt
            → scan_users B sc ctx s ≡ (
                let (vs, t) = verdicts (listing s).1.1 (listing s).1.0 in
                (ok (users_with is_kept vs, users_with is_marked vs), t)))
  unfolding scan_users outcome
  scan_users_partition s = (
    λ e p. rw (p, split_users) refl,
    λ p. rw (p, split_users, scan_loop-verdicts [] (listing s).1.1 [] (listing s).1.0) refl,
  )
