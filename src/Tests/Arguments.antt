-- ===== src/Tests/Arguments.antt =====
-- The flags of the configuration file among other arguments, and references to variables.
use blockstorageingestor.Prelude.{
  ◌≡◌, refl, true, false, List, [], ◌∷◌, arith, if◌then◌else◌, ◌==◌, nat_eq, All, Str, codes,
  str_beq, str_eq,
}
use blockstorageingestor.Go.FlagParser.{token, parse_bool}
use blockstorageingestor.Go.Strings.{split_2}
use blockstorageingestor.Go.Os.{expand_from, is_special, is_alnum}
use blockstorageingestor.Command.Arguments.{parse_config_file_parameter}
use blockstorageingestor.Command.Arguments.Laws.{walk, parse_config_file_parameter_lem}
use blockstorageingestor.Command.Environment.{expand_env}
use blockstorageingestor.Command.Environment.Laws.{
  Piece, plain, braced, defaulted, bare, show, values, IsTemplate, expand_env_lem,
}

-- A flag that is not known, whose value is taken as a flag, and a terminator that ends nothing.
abbrev args : List Str
args =
    codes "-log.format"
    ∷ codes "-config.file=a.yaml"
    ∷ codes "--"
    ∷ codes "--config.expand-env"
    ∷ codes "-config.file"
    ∷ codes "-config.expand-env=false"
    ∷ []

parse_config_file_parameter_lem_example :
    parse_config_file_parameter args ≡ walk args (record { config_file = []; expand_env = false })
parse_config_file_parameter_lem_example = parse_config_file_parameter_lem args

args_test :
    parse_config_file_parameter args
    ≡ record { config_file = codes "-config.expand-env=false"; expand_env = false }
unfolding parse_config_file_parameter str_beq token parse_bool
args_test = refl

-- One variable is set.
abbrev getenv : Str → Str
getenv key = if key == codes "USER" then codes "cortex" else []

abbrev template : List Piece
template =
    plain (codes "user: ")
    ∷ braced (codes "USER")
    ∷ plain (codes ", host: ")
    ∷ defaulted (codes "HOST") (codes "local:9000")
    ∷ plain (codes ", ")
    ∷ bare (codes "USER")
    ∷ plain (codes ".")
    ∷ []

user_is_alnum : All (λ c. is_alnum c ≡ true) (codes "USER")
unfolding is_alnum
user_is_alnum = ground arith

template-IsTemplate : IsTemplate template
unfolding is_alnum is_special
template-IsTemplate =
    let named = user_is_alnum in
    (
      omega arith,
      (
        omega arith,
        (
          omega arith,
          (omega arith, (omega arith, ((omega arith, named, refl, refl), (omega arith, tt)))),
        ),
      ),
    )

expand_env_lem_example : expand_env getenv (show template) ≡ values getenv template
expand_env_lem_example = expand_env_lem getenv template template-IsTemplate

template_test : expand_env getenv (show template) ≡ codes "user: cortex, host: local:9000, cortex."
unfolding expand_env str_beq expand_from split_2
template_test = refl

-- A doubled dollar is a reference to a variable without a name.
dollars_test : expand_env getenv (codes "pa$$word") ≡ codes "paword"
unfolding expand_env str_beq expand_from split_2
dollars_test = refl
