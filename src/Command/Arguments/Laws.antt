-- ===== src/Command/Arguments/Laws.antt =====
-- The repeated parsing finds what one walk over the arguments finds.
use blockstorageingestor.Prelude.{
  ◌≡◌, refl, sym, ap, ◌∙◌, ◌⊎◌, inl, inr, Bool, false, Option, none, some, List, [], ◌∷◌, arith,
  nat_eq, Str, str_eq,
}
use blockstorageingestor.Command.Arguments.{
  Found, Effect, nothing, sets_file, sets_expand, apply, Next, stops, one_on, two_on, parse_one,
  parse, parse_loop, parse_config_file_parameter,
}

Next-cases : (n : Next) → (n ≡ stops) ⊎ (n ≡ one_on) ⊎ (n ≡ two_on)
Next-cases stops = inl refl
Next-cases one_on = inr (inl refl)
Next-cases two_on = inr (inr refl)

-- One walk: each argument is taken as a flag, whatever stands before it.
unfoldable pub walk : List Str → Found → Found
walk [] f = f
walk (a ∷ args) f = walk args (apply (parse_one a args).0 f)

-- what the walk sets
record Last : Type 0 where
  file : Option Str
  expand : Option Bool

or_else {ℓ} : {A : Type ℓ} → Option A → A → A
or_else none a = a
or_else (some b) a = b

over : Last → Found → Found
unfolding or_else
over l f = record {
  config_file = or_else l.file f.config_file;
  expand_env = or_else l.expand f.expand_env;
}

before : Effect → Last → Last
before nothing l = l
before (sets_file v) l = record l { file = some (or_else l.file v) }
before (sets_expand b) l = record l { expand = some (or_else l.expand b) }

last : List Str → Last
unfolding before
last [] = record { file = none; expand = none }
last (a ∷ args) = before (parse_one a args).0 (last args)

over-before : (e : Effect) (l : Last) (f : Found) → over (before e l) f ≡ over l (apply e f)
unfolding over before or_else
over-before nothing l f = refl
over-before (sets_file v) l f = ground arith
over-before (sets_expand b) l f = ground arith

walk-over : (args : List Str) (f : Found) → walk args f ≡ over (last args) f
unfolding walk last
walk-over [] f = unfold over or_else in refl
walk-over (a ∷ args) f =
    walk-over args (apply (parse_one a args).0 f)
    ∙ sym (over-before (parse_one a args).0 (last args) f)

-- Two states that a walk brings together, still so after an effect.
over-apply :
    (l : Last) (e : Effect) (f g : Found)
    → over l f ≡ over l g
    → over l (apply e f) ≡ over l (apply e g)
unfolding over or_else
over-apply l nothing f g h = h
over-apply l (sets_file v) f g h =
    λ i. record { config_file = or_else l.file v; expand_env = (h i).expand_env }
over-apply l (sets_expand b) f g h =
    λ i. record { config_file = (h i).config_file; expand_env = or_else l.expand b }

walk-apply :
    (args : List Str) (e : Effect) (f g : Found)
    → walk args f ≡ walk args g
    → walk args (apply e f) ≡ walk args (apply e g)
walk-apply args e f g h =
    walk-over args (apply e f)
    ∙ over-apply (last args) e f g (sym (walk-over args f) ∙ h ∙ walk-over args g)
    ∙ sym (walk-over args (apply e g))

apply_twice : (e : Effect) (f : Found) → apply e (apply e f) ≡ apply e f
apply_twice nothing f = refl
apply_twice (sets_file v) f = refl
apply_twice (sets_expand b) f = refl

-- A walk undoes what the parsing of the same arguments has done before.
walk-parse : (args : List Str) (f : Found) → walk args (parse args f) ≡ walk args f
unfolding walk parse
walk-parse [] f = refl
walk-parse (a ∷ []) f = apply_twice (parse_one a []).0 f
walk-parse (a ∷ b ∷ args) f =
    let e = (parse_one a (b ∷ args)).0 in
    elim (Next-cases (parse_one a (b ∷ args)).1) [
      | inl n ↦ rw (n, parse) (ap (walk (b ∷ args)) (apply_twice e f))
      | inr (inl n) ↦
          rw (n, parse)
            (walk-apply (b ∷ args) e _ _ (walk-parse (b ∷ args) (apply e f))
              ∙ ap (walk (b ∷ args)) (apply_twice e f))
      | inr (inr n) ↦
          let d = (parse_one b args).0 in
          rw (n, parse)
            (walk-apply args d _ _ (walk-apply args e _ _ (walk-parse args (apply e f)))
              ∙ ap (λ g. walk args (apply d g)) (apply_twice e f))
    ]

-- After a parsing, the walk behind the first argument ends as the whole walk.
walk-parse_tail :
    (a : Str) (args : List Str) (f : Found) → walk args (parse (a ∷ args) f) ≡ walk (a ∷ args) f
unfolding walk parse
walk-parse_tail a [] f = refl
walk-parse_tail a (b ∷ args) f =
    let e = (parse_one a (b ∷ args)).0 in
    elim (Next-cases (parse_one a (b ∷ args)).1) [
      | inl n ↦ rw (n, parse) refl
      | inr (inl n) ↦ rw (n, parse) (walk-parse (b ∷ args) (apply e f))
      | inr (inr n) ↦
          rw (n, parse) (walk-apply args (parse_one b args).0 _ _ (walk-parse args (apply e f)))
    ]

parse_loop-walk : (args : List Str) (f : Found) → parse_loop args f ≡ walk args f
unfolding parse_loop
parse_loop-walk [] f = unfold walk in refl
parse_loop-walk (a ∷ args) f = parse_loop-walk args (parse (a ∷ args) f) ∙ walk-parse_tail a args f

-- Parsing anew behind each argument finds what one walk finds, which takes each argument as a flag,
-- also one that is another flag's value, or stands behind `--` or an unknown flag: for each of the
-- two variables, the last argument that sets it.
pub parse_config_file_parameter_lem :
    (args : List Str)
    → parse_config_file_parameter args ≡ walk args (record { config_file = []; expand_env = false })
unfolding parse_config_file_parameter
parse_config_file_parameter_lem args =
    parse_loop-walk args (record { config_file = []; expand_env = false })
