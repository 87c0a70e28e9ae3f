-- ===== src/Go/Strings/Laws.antt =====
-- The laws of `strings` that the components use.
use blockstorageingestor.Prelude.{
  ℕ, ◌≤◌, ◌≡◌, refl, ap, ◌∙◌, ◌≢◌, true, some, List, [], ◌∷◌, ◌++◌, append_assoc, arith,
  nat_beq_iff, nat_eq, length, All, Lacks, Str, str_eq,
}
use blockstorageingestor.Go.Strings.{
  has_prefix, behind, trim_prefix, trim_suffix_byte, split, split_2, join,
}

pub behind-append : (p s : Str) → behind (p ++ s) p ≡ some s
unfolding behind
behind-append [] [] = refl
behind-append [] (d ∷ s) = refl
behind-append (c ∷ p) s = ground (arith, behind-append p s, nat_beq_iff c c)

pub trim_prefix-append : (p s : Str) → trim_prefix (p ++ s) p ≡ s
unfolding trim_prefix
trim_prefix-append p s = rw (behind-append p s, trim_prefix)

pub trim_suffix_byte-concat : (s : Str) (c : ℕ) → trim_suffix_byte (s ++ c ∷ []) c ≡ s
unfolding trim_suffix_byte
trim_suffix_byte-concat [] c = ground arith
trim_suffix_byte-concat (d ∷ []) c = ground arith
trim_suffix_byte-concat (d ∷ e ∷ s) c = ap (λ t. d ∷ t) (trim_suffix_byte-concat (e ∷ s) c)

pub has_prefix_trans :
    (m e d : Str) → has_prefix m e ≡ true → has_prefix e d ≡ true → has_prefix m d ≡ true
unfolding has_prefix
has_prefix_trans m e [] p q = refl
has_prefix_trans m [] (c ∷ d) p q = cc
has_prefix_trans [] (x ∷ e) (c ∷ d) p q = cc
has_prefix_trans (y ∷ m) (x ∷ e) (c ∷ d) p q =
    ground (arith, has_prefix_trans m e d, nat_beq_iff y x, nat_beq_iff x c, nat_beq_iff y c)

pub length-has_prefix : (m e : Str) → has_prefix m e ≡ true → length e ≤ length m
unfolding has_prefix
length-has_prefix m [] p = omega arith
length-has_prefix [] (x ∷ e) p = cc
length-has_prefix (y ∷ m) (x ∷ e) p = ground (arith, length-has_prefix m e)

module _ (sep : ℕ) where
  pub split-Lacks : (p : Str) → Lacks sep p → split p sep ≡ p ∷ []
  unfolding split
  split-Lacks [] h = refl
  split-Lacks (c ∷ p) h = ground (arith, split-Lacks p h.1, h.0)

  pub split-append : (p rest : Str) → Lacks sep p → split (p ++ sep ∷ rest) sep ≡ p ∷ split rest sep
  unfolding split
  split-append [] rest h = ground arith
  split-append (c ∷ p) rest h = ground (arith, split-append p rest h.1, h.0)

  pub split_2-Lacks : (p : Str) → Lacks sep p → split_2 p sep ≡ p ∷ []
  unfolding split_2
  split_2-Lacks [] h = refl
  split_2-Lacks (c ∷ p) h = ground (arith, split_2-Lacks p h.1, h.0)

  pub split_2-append : (p rest : Str) → Lacks sep p → split_2 (p ++ sep ∷ rest) sep ≡ p ∷ rest ∷ []
  unfolding split_2
  split_2-append [] rest h = ground arith
  split_2-append (c ∷ p) rest h = ground (arith, split_2-append p rest h.1, h.0)

  pub split-join : (ps : List Str) → ps ≢ [] → All (Lacks sep) ps → split (join ps sep) sep ≡ ps
  unfolding join
  split-join [] h _ = absurd (h refl)
  split-join (p ∷ []) h l = split-Lacks p l.0
  split-join (p ∷ q ∷ ps) h l =
      split-append p (join (q ∷ ps) sep) l.0 ∙ ap (λ t. p ∷ t) (split-join (q ∷ ps) (cc) l.1)

  pub split-join-append :
      (ps : List Str) (rest : Str)
      → ps ≢ []
      → All (Lacks sep) ps
      → split (join ps sep ++ sep ∷ rest) sep ≡ ps ++ split rest sep
  unfolding join
  split-join-append [] rest h _ = absurd (h refl)
  split-join-append (p ∷ []) rest h l = split-append p rest l.0
  split-join-append (p ∷ q ∷ ps) rest h l = rw append_assoc (
      split-append p (join (q ∷ ps) sep ++ sep ∷ rest) l.0
      ∙ ap (λ t. p ∷ t) (split-join-append (q ∷ ps) rest (cc) l.1))

  pub join-append :
      (ps qs : List Str)
      → ps ≢ []
      → qs ≢ []
      → join (ps ++ qs) sep ≡ join ps sep ++ sep ∷ join qs sep
  unfolding join
  join-append [] qs h _ = absurd (h refl)
  join-append (p ∷ []) [] _ h = absurd (h refl)
  join-append (p ∷ []) (q ∷ qs) _ h = refl
  join-append (p ∷ p' ∷ ps) qs _ h = rw (join-append (p' ∷ ps) qs (cc) h, append_assoc)

  -- The part before the first separator, and what follows it, are determined by the text.
  pub sep_injective :
      (p q s t : Str) → Lacks sep p → Lacks sep q → p ++ sep ∷ s ≡ q ++ sep ∷ t → (p ≡ q) × (s ≡ t)
  sep_injective [] [] s t _ _ e = ground arith
  sep_injective [] (d ∷ q) s t _ lq e = ground (arith, lq.0)
  sep_injective (c ∷ p) [] s t lp _ e = ground (arith, lp.0)
  sep_injective (c ∷ p) (d ∷ q) s t lp lq e = ground (arith, sep_injective p q s t lp.1 lq.1)
