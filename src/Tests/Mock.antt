-- ===== src/Tests/Mock.antt =====
-- A double of a bucket, over a list of expectations.
use blockstorageingestor.Prelude.{
  ◌≡◌, refl, false, ◌&&◌, Option, none, some, List, [], ◌∷◌, ◌++◌, arith, if◌then◌else◌, ◌==◌,
  nat_eq, Str, codes, str_eq, str_beq_refl,
}
use blockstorageingestor.Objstore.{bytes_reader}
use blockstorageingestor.Bucket.Testify.{Expectation, Testify, returns, does_not_exist, reader_of}
use blockstorageingestor.Bucket.Mock.{ClientMock, upload, delete, get}
use blockstorageingestor.Bucket.Mock.Laws.{IsTestify, prepared, mock_get_require_upload_lem}

abbrev Expectations : Type 0
Expectations = List (Expectation (Unit {0}))

unfoldable find : Expectations → Str → Str → Option (Expectation (Unit {0}))
find [] method name = none
find (e ∷ es) method name =
    let rest = find es method name in if method == e.method && name == e.name then some e else rest

-- Limits are not counted.
abbrev testify : Testify (Unit {0})
testify = record {
  Mock = Expectations;
  on = λ m e. m ++ e ∷ [];
  called = λ m method name. (find m method name, m);
}

find-on :
    (m : Expectations) (e : Expectation (Unit {0}))
    → find m e.method e.name ≡ none
    → find (m ++ e ∷ []) e.method e.name ≡ some e
unfolding find
find-on [] e h = rw (str_beq_refl e.method, str_beq_refl e.name) refl
find-on (x ∷ m) e h = ground (arith, find-on m e, h)

find-other :
    (m : Expectations) (e : Expectation (Unit {0})) (method name : Str)
    → (method == e.method) ≡ false
    → find (m ++ e ∷ []) method name ≡ find m method name
unfolding find
find-other [] e method name h = rw h refl
find-other (x ∷ m) e method name h = rw (find-other m e method name h) refl

testify-IsTestify : IsTestify testify
testify-IsTestify = record {
  called-on = find-on;
  called-other = find-other;
  called-again = λ m e method name other another p q. refl;
}

abbrev empty : ClientMock testify
empty = record { mock = []; uploaded = [] }

nothing_known : (method : Str) → find [] method (codes "a") ≡ none
unfolding find
nothing_known method = refl

mock_get_require_upload_lem_example :
    let m =
      prepared testify testify-IsTestify (codes "a") b'1' [] none none none empty nothing_known in
    let r = bytes_reader [] in
    ((get testify m (codes "a")).0 ≡ returns (none, does_not_exist))
    × ((upload testify m (codes "a") r).0 ≡ returns none)
    × ((get testify (upload testify m (codes "a") r).1 (codes "a")).0
        ≡ returns (some (reader_of (codes "1")), none))
    × ((delete testify (upload testify m (codes "a") r).1 (codes "a")).0 ≡ returns none)
    × ((get testify (delete testify (upload testify m (codes "a") r).1 (codes "a")).1 (codes "a")).0
        ≡ returns (some (reader_of (codes "1")), none))
mock_get_require_upload_lem_example =
    mock_get_require_upload_lem testify testify-IsTestify (codes "a") b'1' [] none none none empty
      nothing_known (bytes_reader [])
