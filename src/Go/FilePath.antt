-- ===== src/Go/FilePath.antt =====
-- Go's package `path`; on Unix `path/filepath` has the same `Base`, `Dir` and `Join`.
pub mod Laws
mod Tests
use blockstorageingestor.Prelude.{
  ℤ, pos, negsuc, at_most, above, ℕ, zero, suc, ◌+◌, ◌-◌, ◌*◌, ◌/◌, ◌%◌, ◌^◌, ◌≤◌, ◌<◌, ◌≡◌, refl,
  sym, ap, ◌∙◌, ◌≢◌, ◌↔◌, ◌⊎◌, inl, inr, Bool, true, false, not, ◌&&◌, ◌||◌, Option, none, some,
  List, [], ◌∷◌, ◌++◌, map, append-nil, append_assoc, arith, ltb, leb, nat_beq, nat_beq_iff,
  if◌then◌else◌, Comparable, ◌==◌, nat_eq, Bool-cases, Option-cases, length, get_elem?, take, drop,
  length-append, contains, All, All-append, Lacks, select, get_elem?-append, Str, codes, str_beq,
  str_beq_iff, str_eq, str_beq_refl, str_beq-append,
}
use blockstorageingestor.Go.Strings.{split, join}

abbrev pub slash : ℕ
slash = b'/'

abbrev pub dot : Str
dot = codes "."

abbrev pub dot_dot : Str
dot_dot = codes ".."

module _ {ℓ} {A : Type ℓ} where
  abbrev pub get_last? : List A → Option A
  get_last? [] = none
  get_last? (x ∷ []) = some x
  get_last? (x ∷ y ∷ xs) = get_last? (y ∷ xs)

  abbrev pub drop_last : List A → List A
  drop_last [] = []
  drop_last (x ∷ []) = []
  drop_last (x ∷ y ∷ xs) = x ∷ drop_last (y ∷ xs)

-- `..` leaves the directory it is met in; at the root it is dropped, and what it cannot leave it
-- stays in front of.
leave : Bool → List Str → Option Str → List Str
leave rooted stack none = if rooted then stack else dot_dot ∷ []
leave rooted stack (some top) = if top == dot_dot then stack ++ dot_dot ∷ [] else drop_last stack

pub clean_step : Bool → List Str → Str → List Str
unfolding leave
clean_step rooted stack part =
    if part == [] || part == dot
    then stack
    else if part == dot_dot
    then leave rooted stack (get_last? stack)
    else stack ++ part ∷ []

pub clean_loop : Bool → List Str → List Str → List Str
clean_loop rooted stack [] = stack
clean_loop rooted stack (part ∷ parts) = clean_loop rooted (clean_step rooted stack part) parts

is_rooted : Str → Bool
is_rooted [] = false
is_rooted (c ∷ s) = nat_beq c slash

spell : Bool → List Str → Str
spell true stack = slash ∷ join stack slash
spell false [] = dot
spell false (p ∷ ps) = join (p ∷ ps) slash

-- `path.Clean(s)`
unfoldable pub clean : Str → Str
unfolding clean_step clean_loop is_rooted spell
clean s = spell (is_rooted s) (clean_loop (is_rooted s) [] (split s slash))

-- The text in which `path.Join` collects its elements.
join_buffer : Str → List Str → Str
join_buffer buf [] = buf
join_buffer [] (e ∷ es) = join_buffer e es
join_buffer (c ∷ buf) (e ∷ es) = join_buffer ((c ∷ buf) ++ slash ∷ e) es

all_empty : List Str → Bool
all_empty [] = true
all_empty (e ∷ es) = e == [] && all_empty es

-- `path.Join(elem...)`
unfoldable pub path_join : List Str → Str
unfolding join_buffer all_empty
path_join es = if all_empty es then [] else clean (join_buffer [] es)

-- The text up to and with the last slash, as `path.Split` gives it.
pub up_to_slash : Str → Str
up_to_slash [] = []
up_to_slash (c ∷ s) =
    let rest = up_to_slash s in
    if contains s slash then c ∷ rest else if nat_beq c slash then c ∷ [] else []

-- The text behind the last slash.
pub behind_slash : Str → Str
behind_slash [] = []
behind_slash (c ∷ s) =
    let rest = behind_slash s in
    if contains s slash then rest else if nat_beq c slash then s else c ∷ s

strip_slashes : Str → Str
strip_slashes [] = []
strip_slashes (c ∷ s) =
    let rest = strip_slashes s in if rest == [] && nat_beq c slash then [] else c ∷ rest

-- `path.Dir(s)`
unfoldable pub dir : Str → Str
unfolding up_to_slash
dir s = clean (up_to_slash s)

or_slash : Str → Str
or_slash [] = slash ∷ []
or_slash (c ∷ s) = c ∷ s

-- `path.Base(s)`
unfoldable pub base : Str → Str
unfolding behind_slash strip_slashes or_slash
base [] = dot
base (c ∷ s) = or_slash (behind_slash (strip_slashes (c ∷ s)))
