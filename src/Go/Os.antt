-- ===== src/Go/Os.antt =====
-- Go's `os.Expand`.
use blockstorageingestor.Prelude.{
  ℕ, zero, suc, Bool, not, ◌&&◌, ◌||◌, Option, none, some, [], ◌∷◌, ◌++◌, leb, nat_beq,
  if◌then◌else◌, ◌==◌, nat_eq, length, contains, Str, codes, str_eq,
}

abbrev between : ℕ → ℕ → ℕ → Bool
between a c b = leb a c && leb c b

-- `isShellSpecialVar`
unfoldable pub is_special : ℕ → Bool
is_special c = contains (codes "*#$@!?-") c || between b'0' c b'9'

-- `isAlphaNum`
unfoldable pub is_alnum : ℕ → Bool
is_alnum c = nat_beq c b'_' || between b'0' c b'9' || between b'a' c b'z' || between b'A' c b'Z'

-- the letters and digits that a text begins with
unfoldable pub alnums : Str → Str
unfolding is_alnum
alnums [] = []
alnums (c ∷ s) = let rest = alnums s in if is_alnum c then c ∷ rest else []

-- what stands before the first closing brace
unfoldable pub before_brace : Str → Option Str
before_brace [] = none
before_brace (c ∷ s) =
    let rest = before_brace s in
    if nat_beq c b'}' then some [] else elim rest [ none ↦ none | some t ↦ some (c ∷ t) ]

-- the name behind an opening brace, and the bytes taken, the brace included; the empty name at bad
-- syntax
unfoldable pub scanned : Option Str → Str × ℕ
scanned none = ([], 1)
scanned (some []) = ([], 2)
scanned (some (c ∷ t)) = (c ∷ t, suc (suc (suc (length t))))

unfoldable pub braced_name : Str → Str × ℕ
unfolding is_special scanned before_brace
braced_name (c ∷ d ∷ s) =
    if is_special c && nat_beq d b'}' then (c ∷ [], 3) else scanned (before_brace (c ∷ d ∷ s))
braced_name s = scanned (before_brace s)

-- `getShellName`, on a text that is not empty
unfoldable pub shell_name : Str → Str × ℕ
unfolding is_special braced_name alnums
shell_name [] = ([], 0)
shell_name (c ∷ s) =
    if nat_beq c b'{'
    then braced_name s
    else if is_special c
    then (c ∷ [], 1)
    else (alnums (c ∷ s), length (alnums (c ∷ s)))

-- what is written for a dollar with a name
abbrev pub replaced : (Str → Str) → Str × ℕ → Str
replaced mapping ([], zero) = b'$' ∷ []
replaced mapping ([], suc w) = []
replaced mapping (c ∷ name, w) = mapping (c ∷ name)

-- The loop of `Expand`, which passes over the `skip` bytes that a name has taken. A dollar at the
-- end of the text stays.
unfoldable pub expand_from : (Str → Str) → ℕ → Str → Str
unfolding shell_name
expand_from mapping skip [] = []
expand_from mapping (suc skip) (c ∷ s) = expand_from mapping skip s
expand_from mapping zero (c ∷ s) =
    let dollar = nat_beq c b'$' && not (s == []) in
    (if dollar then replaced mapping (shell_name s) else c ∷ [])
    ++ expand_from mapping (if dollar then (shell_name s).1 else 0) s

abbrev pub expand : (Str → Str) → Str → Str
expand mapping s = expand_from mapping 0 s
