-- ===== src/Objstore/Memory/Laws.antt =====
-- The bucket in memory is reliable.
use blockstorageingestor.Prelude.{
  ◌≡◌, refl, inl, inr, none, some, [], ◌∷◌, arith, if◌then◌else◌, ◌==◌, nat_eq, Str, str_beq_iff,
  str_eq,
}
use blockstorageingestor.Errors.{ok}
use blockstorageingestor.Objstore.{Reader, bytes_reader}
use blockstorageingestor.Objstore.Lawful.{IsFresh, IsReliable}
use blockstorageingestor.Exec.{for_each}
use blockstorageingestor.Objstore.Listing.{as_dir}
use blockstorageingestor.Objstore.Memory.Store.{
  Objects, lookup, remove, put, is_not_found, fetched, found, listed, memory, memory_reading,
  not_found,
}

lookup-remove :
    (os : Objects) (n m : Str) → lookup (remove os n) m ≡ (if m == n then none else lookup os m)
unfolding lookup remove
lookup-remove [] n m = ground arith
lookup-remove ((k, c) ∷ os) n m =
    ground (arith, lookup-remove os n m, str_beq_iff n k, str_beq_iff m k, str_beq_iff m n)

view-put :
    (os : Objects) (n m c : Str) (r : Reader)
    → IsFresh r c
    → lookup (put r.unread n os).1 m ≡ (if m == n then some c else lookup os m)
unfolding put lookup
view-put os n m c r (inl e) = rw e (ground (arith, lookup-remove os n m))
view-put os n m c r (inr e) = rw e (ground (arith, lookup-remove os n m))

put-ok : (os : Objects) (n c : Str) (r : Reader) → IsFresh r c → (put r.unread n os).0 ≡ ok tt
unfolding put
put-ok os n c r (inl e) = rw e refl
put-ok os n c r (inr e) = rw e refl

pub memory-IsReliable : IsReliable memory memory_reading
unfolding is_not_found fetched found put remove lookup listed as_dir for_each
memory-IsReliable = record {
  upload-ok = λ b ctx n r s c a f. put-ok s n c r f;
  view-upload = λ b ctx n r s c a f m. view-put s n m c r f;
  delete_present = λ b ctx n s c e. rw e refl;
  delete_absent = λ b ctx n s e. inr (not_found, rw e refl, refl);
  view-delete = λ b ctx n s m. lookup-remove s n m;
  get_present =
      λ b ctx n s c e. (record { reader = bytes_reader c; close = ok tt }, rw e refl, inl refl);
  get_absent = λ b ctx n s e. (not_found, rw e refl, refl);
  view-get = λ b ctx n s m. refl;
  exists-view = λ b ctx n s. refl;
  view-exists = λ b ctx n s m. refl;
  iter-entries = λ b X ctx d f os s x. refl;
  not_found-nil = λ b. refl;
  instrumented-same = λ b w p e. (λ a. a, refl, refl, refl);
}
