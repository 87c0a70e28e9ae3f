-- ===== src/Command/Environment/Laws.antt =====
-- What `expandEnv` makes of a text with references.
use blockstorageingestor.Prelude.{
  ℕ, suc, ◌<◌, ◌≡◌, refl, sym, ap, ◌∙◌, true, false, some, List, [], ◌∷◌, ◌++◌, append_assoc, arith,
  nat_beq, if◌then◌else◌, ◌==◌, nat_eq, length, length-append, All, All-append, Lacks, Str, str_beq,
  str_eq,
}
use blockstorageingestor.Go.Strings.Laws.{split_2-Lacks, split_2-append}
use blockstorageingestor.Go.Os.{
  is_special, is_alnum, alnums, before_brace, scanned, braced_name, shell_name, expand_from,
}
use blockstorageingestor.Command.Environment.{variable, expand_env}

-- The pieces of a text: bytes without a dollar, `${name}`, `${name:default}` and `$name`.
pub data Piece : Type 0 where
  plain : Str → Piece
  braced : Str → Piece
  defaulted : Str → Str → Piece
  bare : Str → Piece

abbrev pub shown : Piece → Str
shown (plain s) = s
shown (braced name) = b'$' ∷ b'{' ∷ (name ++ b'}' ∷ [])
shown (defaulted name default) = b'$' ∷ b'{' ∷ (name ++ b':' ∷ (default ++ b'}' ∷ []))
shown (bare name) = b'$' ∷ name

abbrev pub show : List Piece → Str
show [] = []
show (p ∷ ps) = shown p ++ show ps

module _ (getenv : Str → Str) where
  abbrev pub value : Piece → Str
  value (plain s) = s
  value (braced name) = getenv name
  value (defaulted name default) = if getenv name == [] then default else getenv name
  value (bare name) = getenv name

  abbrev pub values : List Piece → Str
  values [] = []
  values (p ∷ ps) = value p ++ values ps

-- A text that does not go on the name before it.
abbrev head : Str → ℕ
head [] = 0
head (c ∷ s) = c

abbrev pub Ends : Str → Type 0
Ends [] = Unit
Ends (c ∷ s) = is_alnum c ≡ false

-- A name in braces holds no colon and no closing brace, a default no closing brace; a name without
-- braces is of letters, digits and underscores, begins with no digit, and what follows ends it.
abbrev pub IsPiece : Piece → Str → Type 0
IsPiece (plain s) rest = Lacks b'$' s
IsPiece (braced name) rest = (0 < length name) × Lacks b':' name × Lacks b'}' name
IsPiece (defaulted name default) rest = Lacks b':' name × Lacks b'}' name × Lacks b'}' default
IsPiece (bare name) rest =
    (0 < length name)
    × All (λ c. is_alnum c ≡ true) name
    × (is_special (head name) ≡ false)
    × Ends rest

abbrev pub IsTemplate : List Piece → Type 0
IsTemplate [] = Unit
IsTemplate (p ∷ ps) = IsPiece p (show ps) × IsTemplate ps

expand-skip : (f : Str → Str) (s t : Str) → expand_from f (length s) (s ++ t) ≡ expand_from f 0 t
unfolding expand_from
expand-skip f [] t = refl
expand-skip f (c ∷ s) t = expand-skip f s t

expand-plain :
    (f : Str → Str) (s t : Str) → Lacks b'$' s → expand_from f 0 (s ++ t) ≡ s ++ expand_from f 0 t
unfolding expand_from
expand-plain f [] t h = refl
expand-plain f (c ∷ s) t h = ground (arith, h.0, expand-plain f s t h.1)

before_brace-append : (s t : Str) → Lacks b'}' s → before_brace (s ++ b'}' ∷ t) ≡ some s
unfolding before_brace
before_brace-append [] t h = refl
before_brace-append (c ∷ s) t h = ground (arith, h.0, before_brace-append s t h.1)

-- A key in braces is read whole.
shell_name-braced :
    (c : ℕ) (s t : Str)
    → Lacks b'}' (c ∷ s)
    → shell_name (b'{' ∷ c ∷ s ++ b'}' ∷ t) ≡ (c ∷ s, suc (suc (suc (length s))))
unfolding shell_name braced_name scanned
shell_name-braced c [] t h = ground (arith, before_brace-append (c ∷ []) t h)
shell_name-braced c (d ∷ s) t h = ground (arith, h.1.0, before_brace-append (c ∷ d ∷ s) t h)

alnums-append : (s t : Str) → All (λ c. is_alnum c ≡ true) s → Ends t → alnums (s ++ t) ≡ s
unfolding alnums
alnums-append [] [] h e = refl
alnums-append [] (c ∷ t) h e = ground (arith, e)
alnums-append (c ∷ s) t h e = ground (arith, h.0, alnums-append s t h.1 e)

expand-braced :
    (f : Str → Str) (c : ℕ) (s t : Str)
    → Lacks b'}' (c ∷ s)
    → expand_from f 0 (b'$' ∷ b'{' ∷ c ∷ s ++ b'}' ∷ t) ≡ f (c ∷ s) ++ expand_from f 0 t
unfolding expand_from str_beq
expand-braced f c s t h =
    rw (expand_from, shell_name-braced c s t h) (ap (◌++◌ (f (c ∷ s))) (skip_key s))
  where
    skip_key : (s : Str) → expand_from f (suc (length s)) (s ++ b'}' ∷ t) ≡ expand_from f 0 t
    skip_key [] = refl
    skip_key (d ∷ s) = skip_key s

alnum_ne_brace : (c : ℕ) → is_alnum c ≡ true → nat_beq c b'{' ≡ false
unfolding is_alnum
alnum_ne_brace c h = ground arith

shell_name-bare :
    (c : ℕ) (s t : Str)
    → All (λ c. is_alnum c ≡ true) (c ∷ s)
    → is_special c ≡ false
    → Ends t
    → shell_name (c ∷ s ++ t) ≡ (c ∷ s, length (c ∷ s))
unfolding shell_name
shell_name-bare c s t h k e =
    rw (shell_name, alnum_ne_brace c h.0, k, alnums-append (c ∷ s) t h e) refl

expand-bare :
    (f : Str → Str) (c : ℕ) (s t : Str)
    → All (λ c. is_alnum c ≡ true) (c ∷ s)
    → is_special c ≡ false
    → Ends t
    → expand_from f 0 (b'$' ∷ c ∷ s ++ t) ≡ f (c ∷ s) ++ expand_from f 0 t
unfolding expand_from str_beq
expand-bare f c s t h k e =
    rw (expand_from, shell_name-bare c s t h k e) (ap (◌++◌ (f (c ∷ s))) (expand-skip f s t))

variable-name : (getenv : Str → Str) (key : Str) → Lacks b':' key → variable getenv key ≡ getenv key
unfolding variable
variable-name getenv key h = rw (split_2-Lacks b':' key h) refl

variable-default :
    (getenv : Str → Str) (key default : Str)
    → Lacks b':' key
    → variable getenv (key ++ b':' ∷ default) ≡ value getenv (defaulted key default)
unfolding variable
variable-default getenv key default h = rw (split_2-append b':' key default h) refl

alnum-Lacks : (s : Str) → All (λ c. is_alnum c ≡ true) s → Lacks b':' s
unfolding is_alnum
alnum-Lacks [] h = tt
alnum-Lacks (c ∷ s) h = ((λ e. ground (arith, h.0)), alnum-Lacks s h.1)

expand-key :
    (f : Str → Str) (key t : Str)
    → 0 < length key
    → Lacks b'}' key
    → expand_from f 0 ((b'$' ∷ b'{' ∷ (key ++ b'}' ∷ [])) ++ t) ≡ f key ++ expand_from f 0 t
expand-key f [] t n h = let no : ⊥ = omega arith in elim no [ ]
expand-key f (c ∷ s) t n h = rw (append_assoc s (b'}' ∷ []) t) (expand-braced f c s t h)

module _ (getenv : Str → Str) where
  piece_lem :
      (p : Piece) (t : Str)
      → IsPiece p t
      → expand_from (variable getenv) 0 (shown p ++ t)
        ≡ value getenv p ++ expand_from (variable getenv) 0 t
  piece_lem (plain s) t h = expand-plain (variable getenv) s t h
  piece_lem (braced name) t h =
      expand-key (variable getenv) name t h.0 h.2
      ∙ ap (λ v. v ++ expand_from (variable getenv) 0 t) (variable-name getenv name h.1)
  piece_lem (defaulted name default) t h =
      rw (sym (append_assoc name (b':' ∷ default) (b'}' ∷ []))) (
        expand-key (variable getenv) (name ++ b':' ∷ default) t
          (omega (arith, length-append {0} name (b':' ∷ default)))
          (All-append _ name (b':' ∷ default) h.1 ((λ e. omega arith), h.2))
        ∙ ap (λ v. v ++ expand_from (variable getenv) 0 t)
            (variable-default getenv name default h.0))
  piece_lem (bare []) t h = let no : ⊥ = omega (arith, h.0) in elim no [ ]
  piece_lem (bare (c ∷ s)) t h =
      expand-bare (variable getenv) c s t h.1 h.2 h.3
      ∙ ap (λ v. v ++ expand_from (variable getenv) 0 t)
          (variable-name getenv (c ∷ s) (alnum-Lacks (c ∷ s) h.1))

  -- `expandEnv` replaces the references of a text, and leaves its other bytes: `${name}` and `$name`
  -- by the variable's value, `${name:default}` by the default if that value is empty.
  pub expand_env_lem :
      (ps : List Piece) → IsTemplate ps → expand_env getenv (show ps) ≡ values getenv ps
  unfolding expand_env
  expand_env_lem [] h = unfold expand_from in refl
  expand_env_lem (p ∷ ps) h =
      piece_lem p (show ps) h.0 ∙ ap (λ t. value getenv p ++ t) (expand_env_lem ps h.1)
