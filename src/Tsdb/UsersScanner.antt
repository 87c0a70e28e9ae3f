-- ===== src/Tsdb/UsersScanner.antt =====
-- pkg/storage/tsdb/users_scanner.go: the users of the store, without those that another instance
-- owns, and split by whether they are marked for deletion.
pub mod Partition
pub mod Laws
use blockstorageingestor.Prelude.{
  ℤ, pos, negsuc, at_most, above, ℕ, zero, suc, ◌+◌, ◌-◌, ◌*◌, ◌/◌, ◌%◌, ◌^◌, ◌≤◌, ◌<◌, ◌≡◌, refl,
  sym, ap, ◌∙◌, ◌≢◌, ◌↔◌, ◌⊎◌, inl, inr, Bool, true, false, not, ◌&&◌, ◌||◌, Option, none, some,
  List, [], ◌∷◌, ◌++◌, map, append-nil, append_assoc, arith, ltb, leb, nat_beq, nat_beq_iff,
  if◌then◌else◌, Comparable, ◌==◌, nat_eq, Bool-cases, Option-cases, length, get_elem?, take, drop,
  length-append, contains, All, All-append, Lacks, select, get_elem?-append, Str, codes, str_beq,
  str_beq_iff, str_eq, str_beq_refl, str_beq-append,
}
use blockstorageingestor.Errors.{Error, Result, ok, err}
use blockstorageingestor.Exec.{Exec}
use blockstorageingestor.Go.Strings.{trim_suffix_byte}
use blockstorageingestor.Objstore.{Bucket}
use blockstorageingestor.Tsdb.DeletionMark.{tenant_deletion_mark_exists}

-- What the two checks of the loop's body say of a user.
pub data Verdict : Type 0 where
  disowned kept marked : Verdict

-- `append(users[:ix], users[ix+1:]...)`
abbrev pub remove_at {ℓ} : {A : Type ℓ} → List A → ℕ → List A
remove_at xs ix = take ix xs ++ drop (suc ix) xs

-- `AllUsers`, the ownership check without sharding
abbrev pub all_users : {S : Type 0} → Str → Exec S Bool
all_users user s = (ok true, s)

module _ (B : Bucket) where
  pub record UsersScanner : Type 0 where
    pub bucket_client : B.Self
    pub is_owned : Str → Exec B.State Bool

  abbrev pub new_users_scanner : B.Self → (Str → Exec B.State Bool) → UsersScanner
  new_users_scanner bucket_client is_owned = record {
    bucket_client = bucket_client;
    is_owned = is_owned;
  }

  -- A mark whose test fails counts as none.
  by_mark : Result Bool → Verdict
  by_mark (ok true) = marked
  by_mark (ok false) = kept
  by_mark (err e) = kept

  -- A user whose ownership is not known is treated as owned.
  by_owner : UsersScanner → B.Context → Str → Result Bool → B.State → Verdict × B.State
  unfolding by_mark
  by_owner sc ctx user (ok false) s = (disowned, s)
  by_owner sc ctx user (ok true) s =
      let (r, t) = tenant_deletion_mark_exists B sc.bucket_client ctx user s in (by_mark r, t)
  by_owner sc ctx user (err e) s =
      let (r, t) = tenant_deletion_mark_exists B sc.bucket_client ctx user s in (by_mark r, t)

  unfoldable pub check : UsersScanner → B.Context → Str → B.State → Verdict × B.State
  unfolding by_owner
  check sc ctx user s = let (r, t) = sc.is_owned user s in by_owner sc ctx user r t

  -- The loop. A round either removes a user or advances, so the rounds are at most the users.
  scan_loop :
      UsersScanner
      → B.Context
      → ℕ
      → List Str
      → ℕ
      → List Str
      → B.State
      → (List Str × List Str) × B.State
  scan_loop sc ctx zero users ix deleted s = ((users, deleted), s)
  scan_loop sc ctx (suc fuel) users ix deleted s = elim (get_elem? users ix) [
    | none ↦ ((users, deleted), s)
    | some user ↦
        let (verdict, t) = check sc ctx user s in
        elim verdict [
          | disowned ↦ scan_loop sc ctx fuel (remove_at users ix) ix deleted t
          | marked ↦ scan_loop sc ctx fuel (remove_at users ix) ix (deleted ++ user ∷ []) t
          | kept ↦ scan_loop sc ctx fuel users (ix + 1) deleted t
        ]
  ]

  -- the callback of the listing
  pub add_user : Str → Exec (B.State × List Str) (Unit {0})
  add_user entry (s, users) = (ok tt, (s, users ++ trim_suffix_byte entry b'/' ∷ []))

  split_users :
      UsersScanner
      → B.Context
      → Result (Unit {0})
      → B.State × List Str
      → Result (List Str × List Str) × B.State
  unfolding scan_loop
  split_users sc ctx (err e) (s, users) = (err e, s)
  split_users sc ctx (ok u) (s, users) =
      let (lists, t) = scan_loop sc ctx (length users) users 0 [] s in (ok lists, t)

  -- The users, and those marked for deletion.
  unfoldable pub scan_users : UsersScanner → B.Context → Exec B.State (List Str × List Str)
  unfolding split_users add_user
  scan_users sc ctx s =
      let (r, t) = B.iter sc.bucket_client (List Str) ctx [] add_user [] (s, []) in
      split_users sc ctx r t
