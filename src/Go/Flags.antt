-- ===== src/Go/Flags.antt =====
-- Go's package `flag`: the flags of a set, in the order in which they are registered.
use blockstorageingestor.Prelude.{
  Bool, true, false, List, [], ◌∷◌, ◌++◌, ltb, nat_beq, if◌then◌else◌, nat_eq, Str, str_eq,
}

-- A flag: its name, its usage, and its default as a text. Its value is kept by its owner.
pub record Flag : Type 0 where
  pub name : Str
  pub usage : Str
  pub def_value : Str

abbrev pub FlagSet : Type 0
FlagSet = List Flag

-- `fs.Var(value, name, usage)`, with the text of the value at this time. A second registration of
-- a name, at which Go panics, is kept as a second flag.
unfoldable pub var : FlagSet → Str → Str → Str → FlagSet
var fs text name usage = fs ++ record { name = name; usage = usage; def_value = text } ∷ []

-- `s <= t` on strings
unfoldable pub str_leb : Str → Str → Bool
str_leb [] t = true
str_leb (c ∷ s) [] = false
str_leb (c ∷ s) (d ∷ t) = let rest = str_leb s t in if nat_beq c d then rest else ltb c d

unfoldable pub insert_flag : Flag → FlagSet → FlagSet
unfolding str_leb
insert_flag f [] = f ∷ []
insert_flag f (g ∷ fs) =
    let rest = insert_flag f fs in if str_leb f.name g.name then f ∷ g ∷ fs else g ∷ rest

-- the order of `fs.VisitAll`: by name
unfoldable pub sort_flags : FlagSet → FlagSet
unfolding insert_flag
sort_flags [] = []
sort_flags (f ∷ fs) = insert_flag f (sort_flags fs)
