-- ===== src/Bucket/Mock.antt =====
-- pkg/storage/bucket/client_mock.go: the double of a bucket that the tests of the program use.
pub mod Laws
use blockstorageingestor.Prelude.{
  ℤ, pos, negsuc, at_most, above, ℕ, zero, suc, ◌+◌, ◌-◌, ◌*◌, ◌/◌, ◌%◌, ◌^◌, ◌≤◌, ◌<◌, ◌≡◌, refl,
  sym, ap, ◌∙◌, ◌≢◌, ◌↔◌, ◌⊎◌, inl, inr, Bool, true, false, not, ◌&&◌, ◌||◌, Option, none, some,
  List, [], ◌∷◌, ◌++◌, map, append-nil, append_assoc, arith, ltb, leb, nat_beq, nat_beq_iff,
  if◌then◌else◌, Comparable, ◌==◌, nat_eq, Bool-cases, Option-cases, length, get_elem?, take, drop,
  length-append, contains, All, All-append, Lacks, select, get_elem?-append, Str, codes, str_beq,
  str_beq_iff, str_eq, str_beq_refl, str_beq-append,
}
use blockstorageingestor.Errors.{Error, sentinel, object_does_not_exist, Result, ok, err}
use blockstorageingestor.Exec.{Exec}
use blockstorageingestor.Objstore.{Reader, ReadCloser, bytes_reader}
use blockstorageingestor.Bucket.Testify.{
  Value, nil_value, a_reader, a_flag, attributes_of, a_getter, Answer, only_error, both,
  Expectation, Testify, Outcome, returns, panics, does_not_exist, load, forget, error_0, flag_0,
  attributes_0, reader_0, got, reader_of,
}

module _ {Y : Type 0} (L : Testify Y) where
  pub record ClientMock : Type 0 where
    pub mock : L.Mock
    pub uploaded : List (Str × Bool)

  -- `m.Called(ctx, name, ...)`, and what is read from the arguments that it returns
  called : {A : Type 0} → (Answer → Outcome A) → Str → Str → ClientMock → Outcome A × ClientMock
  called read method name m =
      let (found, mock) = L.called m.mock method name in
      elim found [
        | none ↦ (panics, record m { mock = mock })
        | some e ↦ (read e.answer, record m { mock = mock })
      ]

  abbrev pub on_answer : Str → Str → Answer → Option ℕ → ClientMock → ClientMock
  on_answer method name answer times m = record m {
    mock = L.on m.mock (record {
      method = method;
      name = name;
      answer = answer;
      times = times;
      entries = [];
      before = none;
    });
  }

  store_if_there : Option Bool → Str → List (Str × Bool) → List (Str × Bool)
  store_if_there none name entries = entries
  store_if_there (some b) name entries = (name, true) ∷ entries

  unfoldable pub upload : ClientMock → Str → Reader → Outcome (Option Error) × ClientMock
  unfolding called store_if_there
  upload m name r =
      called error_0 (codes "Upload") name
        (record m { uploaded = store_if_there (load m.uploaded name) name m.uploaded })

  unfoldable pub delete : ClientMock → Str → Outcome (Option Error) × ClientMock
  unfolding called
  delete m name =
      called error_0 (codes "Delete") name (record m { uploaded = forget m.uploaded name })

  abbrev pub client_name : ClientMock → Str
  client_name m = codes "mock"

  get_unless :
      Option Bool → ClientMock → Str → Outcome (Option ReadCloser × Option Error) × ClientMock
  unfolding called
  get_unless (some false) m name = (returns (none, does_not_exist), m)
  get_unless _ m name = called got (codes "Get") name m

  unfoldable pub get : ClientMock → Str → Outcome (Option ReadCloser × Option Error) × ClientMock
  unfolding get_unless
  get m name = get_unless (load m.uploaded name) m name

  unfoldable pub get_range :
      ClientMock → Str → ℤ → ℤ → Outcome (Option ReadCloser × Option Error) × ClientMock
  unfolding called
  get_range m name off len = called reader_0 (codes "GetRange") name m

  unfoldable pub exists : ClientMock → Str → Outcome (Bool × Option Error) × ClientMock
  unfolding called
  exists m name = called flag_0 (codes "Exists") name m

  unfoldable pub attributes : ClientMock → Str → Outcome (ℕ × Option Error) × ClientMock
  unfolding called
  attributes m name = called attributes_0 (codes "Attributes") name m

  abbrev pub is_obj_not_found_err : ClientMock → Option Error → Bool
  is_obj_not_found_err m (some (sentinel object_does_not_exist)) = true
  is_obj_not_found_err m _ = false

  abbrev pub close : ClientMock → Option Error
  close m = none

  -- the loop over the entries, up to the first for which the callback fails
  unfoldable pub each_entry : (Str → Exec Y (Unit {0})) → List Str → Y → Y
  each_entry f [] y = y
  each_entry f (o ∷ objects) y =
      let (r, z) = f o y in elim r [ ok u ↦ each_entry f objects z | err e ↦ z ]

  ran : Option (Y → Y) → Y → Y
  ran none y = y
  ran (some cb) y = cb y

  unfoldable pub iter :
      ClientMock → Str → (Str → Exec Y (Unit {0})) → Y → Outcome (Option Error) × ClientMock × Y
  unfolding each_entry ran
  iter m dir f y =
      let (found, mock) = L.called m.mock (codes "Iter") dir in
      elim found [
        | none ↦ (panics, record m { mock = mock }, y)
        | some e ↦
            (error_0 e.answer, record m { mock = mock }, each_entry f e.entries (ran e.before y))
      ]

  unfoldable pub mock_iter_with_callback :
      Str → List Str → Option Error → Option (Y → Y) → ClientMock → ClientMock
  mock_iter_with_callback prefix objects e cb m = record m {
    mock = L.on m.mock (record {
      method = codes "Iter";
      name = prefix;
      answer = only_error e;
      times = none;
      entries = objects;
      before = cb;
    });
  }

  unfoldable pub mock_iter : Str → List Str → Option Error → ClientMock → ClientMock
  mock_iter prefix objects e = mock_iter_with_callback prefix objects e none

  abbrev pub mock_upload : Str → Option Error → ClientMock → ClientMock
  mock_upload name e = on_answer (codes "Upload") name (only_error e) none

  abbrev pub mock_delete : Str → Option Error → ClientMock → ClientMock
  mock_delete name e = on_answer (codes "Delete") name (only_error e) none

  abbrev pub mock_exists : Str → Bool → Option Error → ClientMock → ClientMock
  mock_exists name there e = on_answer (codes "Exists") name (both (a_flag there) e) none

  -- `MockGet` and `MockGetTimes`, which differ in the answer of `Get`
  mock_object : Option ℕ → Answer → Str → Str → Option Error → ClientMock → ClientMock
  mock_object times present name [] e m =
      on_answer (codes "Attributes") name (both nil_value does_not_exist) times (
        on_answer (codes "Get") name (both nil_value does_not_exist) times
          (on_answer (codes "Exists") name (both (a_flag false) e) times m))
  mock_object times present name (c ∷ content) e m = on_answer (codes "Get") name present times (
      on_answer (codes "Attributes") name (both (attributes_of (length (c ∷ content))) none) times
        (on_answer (codes "Exists") name (both (a_flag true) e) times m))

  unfoldable pub mock_get : Str → Str → Option Error → ClientMock → ClientMock
  unfolding mock_object
  mock_get name content e =
      mock_object none (both (a_getter (some (reader_of content)) e) none) name content e

  unfoldable pub mock_get_times : Str → Str → Option Error → ℕ → ClientMock → ClientMock
  unfolding mock_object
  mock_get_times name content e times =
      mock_object (some times) (both (a_reader (reader_of content)) e) name content e

  unfoldable pub mock_get_require_upload : Str → Str → Option Error → ClientMock → ClientMock
  mock_get_require_upload name content e m =
      mock_get name content e (record m { uploaded = (name, false) ∷ m.uploaded })
