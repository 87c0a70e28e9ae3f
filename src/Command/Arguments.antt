-- ===== src/Command/Arguments.antt =====
-- cmd/blockstoreingester/main.go: `parseConfigFileParameter`, which looks for two flags among the
-- arguments before the other flags are known.
pub mod Laws
use blockstorageingestor.Prelude.{
  ℤ, pos, negsuc, at_most, above, ℕ, zero, suc, ◌+◌, ◌-◌, ◌*◌, ◌/◌, ◌%◌, ◌^◌, ◌≤◌, ◌<◌, ◌≡◌, refl,
  sym, ap, ◌∙◌, ◌≢◌, ◌↔◌, ◌⊎◌, inl, inr, Bool, true, false, not, ◌&&◌, ◌||◌, Option, none, some,
  List, [], ◌∷◌, ◌++◌, map, append-nil, append_assoc, arith, ltb, leb, nat_beq, nat_beq_iff,
  if◌then◌else◌, Comparable, ◌==◌, nat_eq, Bool-cases, Option-cases, length, get_elem?, take, drop,
  length-append, contains, All, All-append, Lacks, select, get_elem?-append, Str, codes, str_beq,
  str_beq_iff, str_eq, str_beq_refl, str_beq-append,
}
use blockstorageingestor.Go.FlagParser.{Token, no_flag, bad_syntax, named, token, parse_bool}

abbrev pub config_file_option : Str
config_file_option = codes "config.file"

abbrev pub config_expand_env : Str
config_expand_env = codes "config.expand-env"

-- The variables `configFile` and `expandEnv`.
pub record Found : Type 0 where
  pub config_file : Str
  pub expand_env : Bool

-- What one round of `parseOne` does to the variables.
pub data Effect : Type 0 where
  nothing : Effect
  sets_file : Str → Effect
  sets_expand : Bool → Effect

abbrev pub apply : Effect → Found → Found
apply nothing f = f
apply (sets_file v) f = record f { config_file = v }
apply (sets_expand b) f = record f { expand_env = b }

-- Where `Parse` goes after a round: it stops, or reads on behind one argument, or behind two.
pub data Next : Type 0 where
  stops one_on two_on : Next

-- `Set` of a Boolean flag stores false on an error, which ends the parsing.
unfoldable pub set_expand : Str → Effect × Next
set_expand v = elim (parse_bool v) [
  | none ↦ (sets_expand false, stops)
  | some b ↦ (sets_expand b, one_on)
]

-- a text flag without a value of its own takes the next argument
unfoldable pub set_file : Option Str → List Str → Effect × Next
set_file (some v) args = (sets_file v, one_on)
set_file none [] = (nothing, stops)
set_file none (v ∷ args) = (sets_file v, two_on)

-- the rest of `parseOne`: a flag of another name is an error
unfoldable pub named_flag : Str → Option Str → List Str → Effect × Next
unfolding set_expand set_file
named_flag name value args =
    if name == config_file_option
    then set_file value args
    else if name == config_expand_env
    then elim value [ none ↦ (sets_expand true, one_on) | some v ↦ set_expand v ]
    else (nothing, stops)

unfoldable pub parse_one : Str → List Str → Effect × Next
unfolding named_flag
parse_one a args = elim (token a) [
  | no_flag ↦ (nothing, stops)
  | bad_syntax ↦ (nothing, stops)
  | named name value ↦ named_flag name value args
]

-- `fs.Parse(args)`
unfoldable pub parse : List Str → Found → Found
unfolding parse_one
parse [] f = f
parse (a ∷ []) f = apply (parse_one a []).0 f
parse (a ∷ b ∷ args) f =
    let (e, next) = parse_one a (b ∷ args) in
    elim next [
      | stops ↦ apply e f
      | one_on ↦ parse (b ∷ args) (apply e f)
      | two_on ↦ parse args (apply e f)
    ]

-- the loop, which parses anew behind each argument
unfoldable pub parse_loop : List Str → Found → Found
unfolding parse
parse_loop [] f = f
parse_loop (a ∷ args) f = parse_loop args (parse (a ∷ args) f)

unfoldable pub parse_config_file_parameter : List Str → Found
unfolding parse_loop
parse_config_file_parameter args = parse_loop args (record { config_file = []; expand_env = false })
