-- ===== src/Bucket/Testify.antt =====
-- The expectations of `mock.Mock` of testify, which pkg/storage/bucket/client_mock.go sets and asks.
use blockstorageingestor.Prelude.{
  ℕ, Bool, Option, none, some, List, [], ◌∷◌, if◌then◌else◌, ◌==◌, nat_eq, Str, str_eq,
}
use blockstorageingestor.Errors.{Error, sentinel, object_does_not_exist, ok}
use blockstorageingestor.Objstore.{ReadCloser, bytes_reader}

-- What a mocked call returns, as `Return` was given it: one error, or a value and an error. A value
-- is nil, a reader, a Boolean, the attributes of an object of some size, or a function that is
-- called each time.
pub data Value : Type 0 where
  nil_value : Value
  a_reader : ReadCloser → Value
  a_flag : Bool → Value
  attributes_of : ℕ → Value
  a_getter : Option ReadCloser → Option Error → Value

pub data Answer : Type 0 where
  only_error : Option Error → Answer
  both : Value → Option Error → Answer

-- `m.On(method, mock.Anything, name, ...)` with its answer and how often it is given. A mocked
-- `Iter` also calls the callback on some entries, after a function on the test's variables `Y`.
pub record Expectation (Y : Type 0) : Type 0 where
  pub method : Str
  pub name : Str
  pub answer : Answer
  pub times : Option ℕ
  pub entries : List Str
  pub before : Option (Y → Y)

-- `mock.Mock` of testify: the expectations, and what a call finds among them; where it finds none,
-- testify panics.
pub record Testify (Y : Type 0) : Type 1 where
  pub Mock : Type 0
  pub on : Mock → Expectation Y → Mock
  pub called : Mock → Str → Str → Option (Expectation Y) × Mock

-- A call returns, or the goroutine panics.
pub data Outcome {ℓ} (A : Type ℓ) : Type ℓ where
  returns : A → Outcome A
  panics : Outcome A

abbrev pub does_not_exist : Option Error
does_not_exist = some (sentinel object_does_not_exist)

-- `sync.Map`: the last entry for a name counts.
abbrev pub load : List (Str × Bool) → Str → Option Bool
load [] name = none
load ((n, b) ∷ entries) name = let rest = load entries name in if n == name then some b else rest

abbrev pub forget : List (Str × Bool) → Str → List (Str × Bool)
forget [] name = []
forget ((n, b) ∷ entries) name =
    let rest = forget entries name in if n == name then rest else (n, b) ∷ rest

-- `args.Error(0)`, `args.Bool(0)` with `args.Error(1)`, and the assertions on `args.Get(0)`
abbrev pub error_0 : Answer → Outcome (Option Error)
error_0 (only_error e) = returns e
error_0 (both v e) = panics

abbrev pub flag_0 : Answer → Outcome (Bool × Option Error)
flag_0 (both (a_flag b) e) = returns (b, e)
flag_0 _ = panics

abbrev pub attributes_0 : Answer → Outcome (ℕ × Option Error)
attributes_0 (both (attributes_of n) e) = returns (n, e)
attributes_0 _ = panics

abbrev pub reader_0 : Answer → Outcome (Option ReadCloser × Option Error)
reader_0 (both (a_reader r) e) = returns (some r, e)
reader_0 _ = panics

-- the end of `Get`
abbrev pub got : Answer → Outcome (Option ReadCloser × Option Error)
got (both (a_getter r f) e) = returns (r, f)
got (both nil_value e) = returns (none, e)
got (both (a_reader r) e) = returns (some r, e)
got _ = panics

-- the reader over a mocked content
abbrev pub reader_of : Str → ReadCloser
reader_of content = record { reader = bytes_reader content; close = ok tt }
