-- ===== src/Go/FlagVars.antt =====
-- Go's package `flag`: the registration of variables, which are set to their defaults.
use blockstorageingestor.Prelude.{
  ℤ, pos, ℕ, ◌*◌, Bool, true, false, List, [], ◌∷◌, ◌++◌, nat_eq, Str, codes, str_eq,
}
use blockstorageingestor.Go.Flags.{FlagSet, var}

-- How `flag` shows numbers (`strconv`) and durations (`time.Duration.String`).
pub record Texts : Type 0 where
  pub int_text : ℤ → Str
  pub duration_text : ℤ → Str

abbrev pub millisecond : ℕ
millisecond = 1000000

abbrev pub second : ℕ
second = 1000000000

abbrev pub minute : ℕ
minute = 60 * 1000000000

abbrev pub hour : ℕ
hour = 60 * 60 * 1000000000

-- `strings.Join(parts, ", ")`
abbrev pub join_comma : List Str → Str
join_comma [] = []
join_comma (p ∷ []) = p
join_comma (p ∷ q ∷ ps) = p ++ codes ", " ++ join_comma (q ∷ ps)

abbrev pub bool_text : Bool → Str
bool_text true = codes "true"
bool_text false = codes "false"

-- A step that changes the options `C` and registers flags.
abbrev pub Registering {ℓ} : Type ℓ → Type ℓ
Registering C = C × FlagSet → C × FlagSet

module _ {ℓ} {C : Type ℓ} where
  -- `fs.StringVar(&c.field, name, value, usage)`, the field given by how it is set
  abbrev pub string_var : (Str → C → C) → Str → Str → Str → Registering C
  string_var set name value usage (c, fs) = (set value c, var fs value name usage)

  abbrev pub bool_var : (Bool → C → C) → Str → Bool → Str → Registering C
  bool_var set name value usage (c, fs) = (set value c, var fs (bool_text value) name usage)

  -- `fs.Var(&c.field, name, usage)`, with the text of the field, which is kept
  abbrev pub value_var : (C → Str) → Str → Str → Registering C
  value_var show name usage (c, fs) = (c, var fs (show c) name usage)

  -- `IntVar` and `Int64Var`
  abbrev pub int_var : Texts → (ℤ → C → C) → Str → ℤ → Str → Registering C
  int_var X set name value usage (c, fs) = (set value c, var fs (X.int_text value) name usage)

  -- `Uint64Var`
  abbrev pub uint_var : Texts → (ℕ → C → C) → Str → ℕ → Str → Registering C
  uint_var X set name value usage (c, fs) =
      (set value c, var fs (X.int_text (pos value)) name usage)

  abbrev pub duration_var : Texts → (ℤ → C → C) → Str → ℤ → Str → Registering C
  duration_var X set name value usage (c, fs) =
      (set value c, var fs (X.duration_text value) name usage)

  -- the registration of a part of the options
  abbrev pub inside {κ} : {D : Type κ} → (C → D) → (D → C → C) → Registering D → Registering C
  inside part set register (c, fs) = let (d, gs) = register (part c, fs) in (set d c, gs)

  abbrev pub in_order : List (Registering C) → Registering C
  in_order [] s = s
  in_order (r ∷ rs) s = in_order rs (r s)
