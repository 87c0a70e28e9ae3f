-- ===== src/Tests/Environment.antt =====
-- A program whose service ends in an error.
use blockstorageingestor.Prelude.{
  pos, ◌^◌, ◌≡◌, refl, ◌↔◌, true, false, List, [], ◌∷◌, ◌++◌, nat_eq, contains, Str, codes, str_beq,
  str_eq,
}
use blockstorageingestor.Errors.{ok, err, foreign}
use blockstorageingestor.Go.FlagParser.{token}
use blockstorageingestor.Command.Arguments.{parse_config_file_parameter}
use blockstorageingestor.Go.Flags.{str_leb}
use blockstorageingestor.Go.Sort.Laws.{IsSorted}
use blockstorageingestor.Command.Start.Modules.{is_included_lem}
use blockstorageingestor.Command.Start.{
  is_included, Program, main, parsed, config_hash, logger, event_sampling, tracing, ran, fatal,
  exited, check_fatal,
}
use blockstorageingestor.Command.Start.Laws.{has_ran, IsStarted, main_lem}

abbrev program : Program
program = record {
  Config = Str;
  default_config = [];
  getenv = λ key. codes "x";
  read_file = λ f. ok (codes "dir: ${DIR}");
  sha256_hex = λ buf. codes "hash of " ++ buf;
  unmarshal_strict = λ buf cfg. (ok tt, buf);
  parse_flags = λ args cfg. (
    parsed,
    (
      cfg,
      record {
        event_sample_rate = pos 0;
        ballast_bytes = pos 0;
        mutex_profile_fraction = pos 0;
        block_profile_rate = pos 0;
        print_version = false;
        print_modules = false;
      },
    ),
  );
  validate = λ cfg. ok tt;
  target = λ cfg. codes "all" ∷ [];
  setup_tracing = λ name cfg. ok tt;
  Service = Str;
  new = λ cfg. ok cfg;
  dependencies_of_all = λ t. [];
  user_visible_module_names = λ t. [];
  run = λ t. err (foreign 3);
  max_alloc = 2 ^ 48;
}

abbrev args : List Str
args = codes "-config.file=c.yaml" ∷ codes "-config.expand-env" ∷ []

main_lem_example :
    ((has_ran (main program false args).0 ≡ true) ↔ ((t : Str) × IsStarted program args t))
    × ((has_ran (main program false args).0 ≡ true) ↔ (
        (t : Str) × IsStarted program args t
        × ((main program false args).1 ≡ (check_fatal (codes "running cortex") (program.run t)).1)))
main_lem_example = main_lem program args

main_test : main program false args ≡ (
  config_hash (codes "hash of dir: ${DIR}")
      ∷ logger
      ∷ event_sampling (pos 0)
      ∷ tracing (codes "cortex-all")
      ∷ ran
      ∷ fatal (codes "running cortex") (foreign 3)
      ∷ [],
  exited 1,
)
unfolding main str_beq parse_config_file_parameter token
main_test = refl

abbrev deps : List Str
deps = codes "api" ∷ codes "compactor" ∷ codes "server" ∷ []

deps-IsSorted : IsSorted deps
unfolding str_leb
deps-IsSorted = ((refl, (refl, tt)), ((refl, tt), (tt, tt)))

is_included_lem_example : is_included program deps (codes "server") ≡ contains deps (codes "server")
is_included_lem_example = is_included_lem program deps (codes "server") deps-IsSorted
