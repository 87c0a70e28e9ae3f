-- ===== src/Prelude/Text.antt =====
-- Go's `string`: a sequence of bytes. A literal is written `codes "..."`.
use Prim.Native.Nat.{ℕ}
use Prim.Native.Char.{code}
use Prim.Native.String.{String}
use mathlib.Core.Path.{◌≡◌, refl}
use mathlib.Core.Logic.{◌↔◌}
use mathlib.Core.Bool.{Bool, true, false, ◌&&◌}
use mathlib.Core.List.{List, [], ◌∷◌, ◌++◌}
use native.Mathlib.Omega.{arith}
use blockstorageingestor.Prelude.Tests.{nat_beq, nat_beq_iff, Comparable}

abbrev pub Str : Type 0
Str = List ℕ

abbrev pub codes : String → Str
codes String.[] = []
codes (String.◌∷◌ c s) = code c ∷ codes s

unfoldable pub str_beq : Str → Str → Bool
str_beq [] [] = true
str_beq (c ∷ s) (d ∷ t) = nat_beq c d && str_beq s t
str_beq _ _ = false

pub str_beq_iff : (s t : Str) → (str_beq s t ≡ true) ↔ (s ≡ t)
unfolding str_beq
str_beq_iff [] [] = ground arith
str_beq_iff [] (d ∷ t) = ground arith
str_beq_iff (c ∷ s) [] = ground arith
str_beq_iff (c ∷ s) (d ∷ t) = ground (arith, str_beq_iff s t)

instance abbrev pub str_eq : Comparable Str
str_eq = record { same = str_beq; same_iff = str_beq_iff }

pub str_beq_refl : (s : Str) → str_beq s s ≡ true
str_beq_refl s = (str_beq_iff s s).1 refl

pub str_beq-append : (p s t : Str) → str_beq (p ++ s) (p ++ t) ≡ str_beq s t
unfolding str_beq
str_beq-append [] s t = refl
str_beq-append (c ∷ p) s t = ground (arith, str_beq-append p s t, nat_beq_iff c c)
