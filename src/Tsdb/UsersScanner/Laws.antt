-- ===== src/Tsdb/UsersScanner/Laws.antt =====
-- Over a reliable store the scan returns the users by their ownership and their marks.
use blockstorageingestor.Prelude.{
  ◌≡◌, refl, ap, ◌∙◌, Bool, true, false, not, ◌&&◌, List, [], ◌∷◌, ◌++◌, map, append-nil,
  append_assoc, arith, if◌then◌else◌, nat_eq, select, Str, str_eq,
}
use mathlib.Core.Path.{fun_ext}
use blockstorageingestor.Errors.{Result, ok, err}
use blockstorageingestor.Exec.{for_each}
use blockstorageingestor.Go.Strings.{trim_suffix_byte}
use blockstorageingestor.Objstore.{Bucket}
use blockstorageingestor.Objstore.Lawful.{Reading, IsReliable, is_some}
use blockstorageingestor.Tsdb.DeletionMark.{tenant_deletion_mark_exists, marker_file}
use blockstorageingestor.Tsdb.UsersScanner.Partition.{
  users_with, verdicts, is_kept, is_marked, scan_users_partition, listing,
}
use blockstorageingestor.Tsdb.UsersScanner.{
  UsersScanner, Verdict, disowned, kept, marked, by_mark, by_owner, check, add_user, scan_users,
}

for_each-add_user :
    (B : Bucket) (es users : List Str) (s : B.State)
    → for_each es (add_user B) (s, users)
      ≡ (ok tt, (s, users ++ map (λ e. trim_suffix_byte e b'/') es))
unfolding for_each add_user
for_each-add_user B [] users s = rw append-nil refl
for_each-add_user B (e ∷ es) users s =
    for_each-add_user B es (users ++ trim_suffix_byte e b'/' ∷ []) s ∙ rw append_assoc refl

-- An ownership that cannot be told counts as owned.
abbrev pub counts_as_owned : Result Bool → Bool
counts_as_owned (ok b) = b
counts_as_owned (err e) = true

module _ (B : Bucket) (V : Reading B) (R : IsReliable B V) (sc : UsersScanner B) (ctx : B.Context)
    (owned : Str → Result Bool)
    (pure_owner : (u : Str) (s : B.State) → sc.is_owned u s ≡ (owned u, s)) where
  abbrev has_mark : B.State → Str → Bool
  has_mark s u = is_some (V.view sc.bucket_client s (marker_file B u))

  abbrev SameView : B.State → B.State → Type 0
  SameView s t = (n : Str) → V.view sc.bucket_client s n ≡ V.view sc.bucket_client t n

  verdict : Result Bool → Bool → Verdict
  verdict (ok false) m = disowned
  verdict (ok true) m = if m then marked else kept
  verdict (err e) m = if m then marked else kept

  by_mark-ok : (m : Bool) → by_mark B (ok m) ≡ (if m then marked else kept)
  by_mark-ok true = unfold by_mark in refl
  by_mark-ok false = unfold by_mark in refl

  exists-verdict :
      (u : Str) (s : B.State)
      → by_mark B (tenant_deletion_mark_exists B sc.bucket_client ctx u s).0
        ≡ (if has_mark s u then marked else kept)
  unfolding tenant_deletion_mark_exists
  exists-verdict u s =
      ap (by_mark B) (R.exists-view sc.bucket_client ctx (marker_file B u) s)
      ∙ by_mark-ok (has_mark s u)

  exists-SameView :
      (u : Str) (s : B.State)
      → SameView (tenant_deletion_mark_exists B sc.bucket_client ctx u s).1 s
  unfolding tenant_deletion_mark_exists
  exists-SameView u s n = R.view-exists sc.bucket_client ctx (marker_file B u) s n

  by_owner-verdict :
      (u : Str) (r : Result Bool) (s : B.State)
      → ((by_owner B sc ctx u r s).0 ≡ verdict r (has_mark s u))
        × SameView (by_owner B sc ctx u r s).1 s
  unfolding by_owner verdict
  by_owner-verdict u (ok false) s = (refl, λ n. refl)
  by_owner-verdict u (ok true) s = (exists-verdict u s, exists-SameView u s)
  by_owner-verdict u (err e) s = (exists-verdict u s, exists-SameView u s)

  check-verdict :
      (u : Str) (s : B.State)
      → ((check B sc ctx u s).0 ≡ verdict (owned u) (has_mark s u))
        × SameView (check B sc ctx u s).1 s
  unfolding check
  check-verdict u s = rw (pure_owner u s) (by_owner-verdict u (owned u) s)

  -- the marks of another state with the same objects
  has_mark-SameView : (s t : B.State) (u : Str) → SameView t s → has_mark t u ≡ has_mark s u
  has_mark-SameView s t u h = ap is_some (h (marker_file B u))

  select-verdicts :
      (p : Verdict → Bool) (us : List Str) (s t : B.State)
      → SameView t s
      → users_with B sc ctx p (verdicts B sc ctx us t).0
        ≡ select (λ u. p (verdict (owned u) (has_mark s u))) us
  unfolding verdicts users_with
  select-verdicts p [] s t h = refl
  select-verdicts p (u ∷ us) s t h =
      let c = check-verdict u t in
      let ih = select-verdicts p us s (check B sc ctx u t).1 (λ n. c.1 n ∙ h n) in
      let e : (check B sc ctx u t).0 ≡ verdict (owned u) (has_mark s u) =
        c.0 ∙ ap (verdict (owned u)) (has_mark-SameView s t u h) in
      rw e (split (p (verdict (owned u) (has_mark s u))) ih)
    where
      split :
          (b : Bool)
          → users_with B sc ctx p (verdicts B sc ctx us (check B sc ctx u t).1).0
            ≡ select (λ u. p (verdict (owned u) (has_mark s u))) us
          → map
              (λ (uv : Str × Verdict). uv.0)
              (if b
                then (u, verdict (owned u) (has_mark s u))
                  ∷ select (λ uv. p uv.1) (verdicts B sc ctx us (check B sc ctx u t).1).0
                else select (λ uv. p uv.1) (verdicts B sc ctx us (check B sc ctx u t).1).0)
            ≡ (if b
                then u ∷ select (λ u. p (verdict (owned u) (has_mark s u))) us
                else select (λ u. p (verdict (owned u) (has_mark s u))) us)
      split true ih = ap (λ l. u ∷ l) ih
      split false ih = ih

  is_kept-verdict :
      (r : Result Bool) (m : Bool) → is_kept (verdict r m) ≡ counts_as_owned r && not m
  unfolding verdict
  is_kept-verdict (ok false) m = refl
  is_kept-verdict (ok true) m = ground arith
  is_kept-verdict (err e) m = ground arith

  is_marked-verdict :
      (r : Result Bool) (m : Bool) → is_marked (verdict r m) ≡ counts_as_owned r && m
  unfolding verdict
  is_marked-verdict (ok false) m = refl
  is_marked-verdict (ok true) m = ground arith
  is_marked-verdict (err e) m = ground arith

  abbrev listed_users : B.State → List Str
  listed_users s = map (λ e. trim_suffix_byte e b'/') (V.entries sc.bucket_client s [])

  listing-entries : (s : B.State) → listing B sc ctx s ≡ (ok tt, (s, listed_users s))
  listing-entries s =
      R.iter-entries sc.bucket_client (List Str) ctx [] (add_user B) [] s []
      ∙ for_each-add_user B _ [] s

  -- Over a reliable store, and with an ownership check that changes nothing: `ScanUsers` succeeds.
  -- It returns the listed users, in the order of the listing and as often as they are listed, in
  -- two lists: those owned, or whose ownership cannot be told, that have no deletion mark; and
  -- those of the same kind that have one.
  pub scan_users-reliable :
      (s : B.State)
      → (scan_users B sc ctx s).0
        ≡ ok (
          select (λ u. counts_as_owned (owned u) && not (has_mark s u)) (listed_users s),
          select (λ u. counts_as_owned (owned u) && has_mark s u) (listed_users s),
        )
  scan_users-reliable s =
      let l = listing-entries s in
      ap (λ r. r.0) ((scan_users_partition B sc ctx s).1 (ap (λ r. r.0) l))
      ∙ rw l (
          rw
            (
              select-verdicts is_kept (listed_users s) s s (λ n. refl),
              select-verdicts is_marked (listed_users s) s s (λ n. refl),
              fun_ext (λ u. is_kept-verdict (owned u) (has_mark s u)),
              fun_ext (λ u. is_marked-verdict (owned u) (has_mark s u)),
            )
            refl)
