-- ===== src/Objstore.antt =====
-- The interface `objstore.Bucket` of github.com/thanos-io/objstore, which the clients of the
-- repository take and implement. The module is a library outside the repository: its buckets are
-- values of this record, and what is relied on of them is in `Objstore.Lawful`.
pub mod Lawful
pub mod Listing
pub mod Memory
use blockstorageingestor.Prelude.{
  ℤ, pos, negsuc, at_most, above, ℕ, zero, suc, ◌+◌, ◌-◌, ◌*◌, ◌/◌, ◌%◌, ◌^◌, ◌≤◌, ◌<◌, ◌≡◌, refl,
  sym, ap, ◌∙◌, ◌≢◌, ◌↔◌, ◌⊎◌, inl, inr, Bool, true, false, not, ◌&&◌, ◌||◌, Option, none, some,
  List, [], ◌∷◌, ◌++◌, map, append-nil, append_assoc, arith, ltb, leb, nat_beq, nat_beq_iff,
  if◌then◌else◌, Comparable, ◌==◌, nat_eq, Bool-cases, Option-cases, length, get_elem?, take, drop,
  length-append, contains, All, All-append, Lacks, select, get_elem?-append, Str, codes, str_beq,
  str_beq_iff, str_eq, str_beq_refl, str_beq-append,
}
use blockstorageingestor.Errors.{Error, Result, ok}
use blockstorageingestor.Exec.{Exec}

-- An `io.Reader`: what `io.ReadAll` gives from where it stands, and, if it is an `io.Seeker`, what
-- `Seek(0, io.SeekStart)` returns: an error, or what can then be read.
pub record Reader : Type 0 where
  pub unread : Result Str
  pub seek_start : Option (Result (Result Str))

-- `objstore.DirDelim`, the delimiter of directories: a slash
abbrev pub dir_delim : ℕ
dir_delim = b'/'

-- `bytes.NewReader(b)`, which can seek
abbrev pub bytes_reader : Str → Reader
bytes_reader b = record { unread = ok b; seek_start = some (ok (ok b)) }

-- `bytes.NewBuffer(b)`, which cannot
abbrev pub bytes_buffer : Str → Reader
bytes_buffer b = record { unread = ok b; seek_start = none }

-- An `io.ReadCloser`: a reader, and what `Close` returns.
pub record ReadCloser : Type 0 where
  pub reader : Reader
  pub close : Result (Unit {0})

-- `Self` is the Go value behind the interface, `State` all that its calls can change. A call of
-- `iter` hands its callback the entries of a directory; the callback changes the state too, and
-- `X`, the variables that it captures. `as_instrumented` is the type assertion to
-- `objstore.InstrumentedBucket`, with that interface's `WithExpectedErrs`.
pub record Bucket : Type 1 where
  pub Self : Type 0
  pub State : Type 0
  pub Context : Type 0
  pub IterOption : Type 0
  pub Attributes : Type 0
  pub name : Self → Str
  pub close : Self → Exec State (Unit {0})
  pub upload : Self → Context → Str → Reader → Exec State (Unit {0})
  pub delete : Self → Context → Str → Exec State (Unit {0})
  pub iter :
      Self
      → (X : Type 0) → Context
      → Str
      → (Str → Exec (State × X) (Unit {0}))
      → List IterOption
      → Exec (State × X) (Unit {0})
  pub get : Self → Context → Str → Exec State ReadCloser
  pub get_range : Self → Context → Str → ℤ → ℤ → Exec State ReadCloser
  pub exists : Self → Context → Str → Exec State Bool
  pub attributes : Self → Context → Str → Exec State Attributes
  pub is_obj_not_found_err : Self → Option Error → Bool
  pub as_instrumented : Self → Option ((Option Error → Bool) → Self)
