-- ===== src/Go/FlagParser.antt =====
-- How Go's `flag.FlagSet.Parse` reads an argument.
use blockstorageingestor.Prelude.{
  Bool, true, false, not, ◌||◌, Option, none, some, [], ◌∷◌, nat_beq, if◌then◌else◌, ◌==◌, nat_eq,
  contains, Str, codes, str_eq,
}

-- An argument on its own: one that ends the flags, one of bad syntax, or a flag with a name and
-- the value behind the first `=`, if there is one.
pub data Token : Type 0 where
  no_flag bad_syntax : Token
  named : Str → Option Str → Token

-- `name` and `value` of a flag; an `=` cannot be first.
unfoldable pub split_value : Str → Str × Option Str
split_value [] = ([], none)
split_value (c ∷ s) =
    let (name, value) = split_value s in if nat_beq c b'=' then ([], some s) else (c ∷ name, value)

-- a flag without its minuses
unfoldable pub flag_token : Str → Token
unfolding split_value
flag_token [] = bad_syntax
flag_token (c ∷ s) =
    let (name, value) = split_value s in
    if nat_beq c b'-' || nat_beq c b'=' then bad_syntax else named (c ∷ name) value

-- the first tests of `parseOne`
unfoldable pub token : Str → Token
unfolding flag_token
token (c ∷ d ∷ s) =
    if not (nat_beq c b'-')
    then no_flag
    else if not (nat_beq d b'-')
    then flag_token (d ∷ s)
    else if s == []
    then no_flag
    else flag_token s
token _ = no_flag

-- `strconv.ParseBool`, with `none` for an error
unfoldable pub parse_bool : Str → Option Bool
parse_bool s =
    if contains
      (codes "1" ∷ codes "t" ∷ codes "T" ∷ codes "true" ∷ codes "TRUE" ∷ codes "True" ∷ []) s
    then some true
    else if contains
        (codes "0" ∷ codes "f" ∷ codes "F" ∷ codes "false" ∷ codes "FALSE" ∷ codes "False" ∷ []) s
    then some false
    else none
