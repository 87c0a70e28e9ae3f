-- ===== src/Go/FilePath/Laws.antt =====
-- Paths that are written as plain components are clean, and their parts are found again.
use blockstorageingestor.Prelude.{
  ℕ, ◌≡◌, refl, sym, ap, ◌∙◌, ◌≢◌, Bool, true, false, some, List, [], ◌∷◌, ◌++◌, append-nil,
  append_assoc, arith, nat_eq, contains, All, All-append, Lacks, Str, codes, str_beq, str_beq_iff,
  str_eq,
}
use blockstorageingestor.Go.Strings.{split, join}
use blockstorageingestor.Go.Strings.Laws.{split-join, split-join-append, join-append}
use blockstorageingestor.Go.Strings.Laws.{join-append, split-append}
use blockstorageingestor.Go.FilePath.{
  slash, dot, dot_dot, get_last?, drop_last, leave, clean_step, clean_loop, is_rooted, spell, clean,
  join_buffer, path_join, up_to_slash, behind_slash, strip_slashes, dir, or_slash, base,
}

-- A component that names a file or a directory of its own.
pub record IsPlain (p : Str) : Type 0 where
  pub not_empty : p ≢ []
  pub not_dot : p ≢ dot
  pub not_dot_dot : p ≢ dot_dot
  pub lacks : Lacks slash p

pub All-IsPlain-Lacks : (ps : List Str) → All IsPlain ps → All (Lacks slash) ps
All-IsPlain-Lacks [] h = tt
All-IsPlain-Lacks (p ∷ ps) h = (h.0.lacks, All-IsPlain-Lacks ps h.1)

clean_step-IsPlain :
    (rooted : Bool) (stack : List Str) (p : Str)
    → IsPlain p
    → clean_step rooted stack p ≡ stack ++ p ∷ []
unfolding clean_step
clean_step-IsPlain rooted stack p h = ground (
  arith,
  str_beq_iff p [],
  str_beq_iff p dot,
  str_beq_iff p dot_dot,
  h.not_empty,
  h.not_dot,
  h.not_dot_dot,
)

clean_loop-IsPlain :
    (rooted : Bool) (stack ps : List Str)
    → All IsPlain ps
    → clean_loop rooted stack ps ≡ stack ++ ps
unfolding clean_loop
clean_loop-IsPlain rooted stack [] h = sym (append-nil stack)
clean_loop-IsPlain rooted stack (p ∷ ps) h =
    rw (clean_step-IsPlain rooted stack p h.0, clean_loop-IsPlain rooted (stack ++ p ∷ []) ps h.1)
      (append_assoc stack (p ∷ []) ps)

clean_loop-append :
    (rooted : Bool) (stack ps qs : List Str)
    → clean_loop rooted stack (ps ++ qs) ≡ clean_loop rooted (clean_loop rooted stack ps) qs
unfolding clean_loop
clean_loop-append rooted stack [] qs = refl
clean_loop-append rooted stack (p ∷ ps) qs =
    clean_loop-append rooted (clean_step rooted stack p) ps qs

is_rooted-append :
    (ps : List Str) (rest : Str)
    → ps ≢ []
    → All IsPlain ps
    → is_rooted (join ps slash ++ rest) ≡ false
unfolding is_rooted join
is_rooted-append [] rest h _ = absurd (h refl)
is_rooted-append ([] ∷ ps) rest _ h = absurd (h.0.not_empty refl)
is_rooted-append ((c ∷ p) ∷ []) rest _ h = ground (arith, h.0.lacks.0)
is_rooted-append ((c ∷ p) ∷ q ∷ ps) rest _ h = ground (arith, h.0.lacks.0)

spell-IsPlain : (ps : List Str) → ps ≢ [] → spell false ps ≡ join ps slash
unfolding spell
spell-IsPlain [] h = absurd (h refl)
spell-IsPlain (p ∷ ps) h = refl

-- A path of plain components, followed by any text that turns them into the components `qs`.
clean-join-append :
    (ps qs : List Str) (rest : Str)
    → ps ≢ []
    → All IsPlain ps
    → clean_loop false ps (split rest slash) ≡ qs
    → qs ≢ []
    → clean (join ps slash ++ slash ∷ rest) ≡ join qs slash
unfolding clean
clean-join-append ps qs rest h l e k =
    rw
      (
        is_rooted-append ps (slash ∷ rest) h l,
        split-join-append slash ps rest h (All-IsPlain-Lacks ps l),
        clean_loop-append false [] ps (split rest slash),
        clean_loop-IsPlain false [] ps l,
        e,
      )
      (spell-IsPlain qs k)

pub clean-join : (ps : List Str) → ps ≢ [] → All IsPlain ps → clean (join ps slash) ≡ join ps slash
unfolding clean
clean-join ps h l = rw (← append-nil (join ps slash)) (
    rw
      (
        is_rooted-append ps [] h l,
        append-nil,
        split-join slash ps h (All-IsPlain-Lacks ps l),
        clean_loop-IsPlain false [] ps l,
      )
      (spell-IsPlain ps h))

join-ne-nil : (ps : List Str) → ps ≢ [] → All IsPlain ps → join ps slash ≢ []
unfolding join
join-ne-nil [] h _ = absurd (h refl)
join-ne-nil (p ∷ []) _ l = l.0.not_empty
join-ne-nil ([] ∷ q ∷ ps) _ l = absurd (l.0.not_empty refl)
join-ne-nil ((c ∷ p) ∷ q ∷ ps) _ l = cc

path_join-ne-nil :
    (e : Str) (es : List Str) → e ≢ [] → path_join (e ∷ es) ≡ clean (join_buffer e es)
unfolding path_join
path_join-ne-nil [] es h = absurd (h refl)
path_join-ne-nil (c ∷ e) es h = unfold str_beq in refl

join_buffer-ne-nil :
    (buf e : Str) (es : List Str)
    → buf ≢ []
    → join_buffer buf (e ∷ es) ≡ join_buffer (buf ++ slash ∷ e) es
unfolding join_buffer
join_buffer-ne-nil [] e es h = absurd (h refl)
join_buffer-ne-nil (c ∷ buf) e es h = refl

append-ne-nil : (s t : Str) (c : ℕ) → s ++ c ∷ t ≢ []
append-ne-nil [] t c = cc
append-ne-nil (d ∷ s) t c = cc

join_buffer-nil : (buf : Str) → join_buffer buf [] ≡ buf
unfolding join_buffer
join_buffer-nil [] = refl
join_buffer-nil (c ∷ buf) = refl

list_append-ne-nil : (ps qs : List Str) → qs ≢ [] → ps ++ qs ≢ []
list_append-ne-nil [] qs h = h
list_append-ne-nil (p ∷ ps) qs h = cc

-- `path.Join` of two paths of plain components is the path of all their components.
pub path_join-join :
    (ps qs : List Str)
    → ps ≢ []
    → qs ≢ []
    → All IsPlain ps
    → All IsPlain qs
    → path_join (join ps slash ∷ join qs slash ∷ []) ≡ join (ps ++ qs) slash
path_join-join ps qs h k l m =
    rw
      (
        path_join-ne-nil _ _ (join-ne-nil ps h l),
        join_buffer-ne-nil _ _ _ (join-ne-nil ps h l),
        join_buffer-nil,
        ← join-append slash ps qs h k,
      )
      (clean-join (ps ++ qs) (list_append-ne-nil ps qs k) (All-append IsPlain ps qs l m))

drop_last-concat : (ps : List Str) (p : Str) → drop_last (ps ++ p ∷ []) ≡ ps
drop_last-concat [] p = refl
drop_last-concat (q ∷ []) p = refl
drop_last-concat (q ∷ r ∷ ps) p = ap (λ t. q ∷ t) (drop_last-concat (r ∷ ps) p)

get_last?-concat : (ps : List Str) (p : Str) → get_last? (ps ++ p ∷ []) ≡ some p
get_last?-concat [] p = refl
get_last?-concat (q ∷ []) p = refl
get_last?-concat (q ∷ r ∷ ps) p = get_last?-concat (r ∷ ps) p

leave-concat : (ps : List Str) (p : Str) → p ≢ dot_dot → leave false (ps ++ p ∷ []) (some p) ≡ ps
unfolding leave
leave-concat ps p h = ground (arith, str_beq_iff p dot_dot, drop_last-concat ps p)

-- The components `..` and the empty one, behind a directory `p`.
clean_loop-up :
    (ps qs : List Str) (p : Str)
    → IsPlain p
    → All IsPlain qs
    → clean_loop false (ps ++ p ∷ []) (dot_dot ∷ [] ∷ qs) ≡ ps ++ qs
unfolding clean_loop clean_step str_beq
clean_loop-up ps qs p h m =
    rw (get_last?-concat, leave-concat ps p h.not_dot_dot) (clean_loop-IsPlain false ps qs m)

split-up :
    (qs : List Str)
    → qs ≢ []
    → All IsPlain qs
    → split (codes "..//" ++ join qs slash) slash ≡ dot_dot ∷ [] ∷ qs
split-up qs k m =
    split-append slash dot_dot (slash ∷ join qs slash) (omega arith)
    ∙ ap (λ t. dot_dot ∷ t)
        (split-append slash [] (join qs slash) tt
          ∙ ap (λ t. [] ∷ t) (split-join slash qs k (All-IsPlain-Lacks qs m)))

-- `path.Join(dir, "../", file)` replaces the last component of `dir` by those of `file`.
pub path_join-up :
    (ps qs : List Str) (p : Str)
    → qs ≢ []
    → IsPlain p
    → All IsPlain ps
    → All IsPlain qs
    → path_join (join (ps ++ p ∷ []) slash ∷ codes "../" ∷ join qs slash ∷ [])
      ≡ join (ps ++ qs) slash
path_join-up ps qs p k h l m =
    let d = ps ++ p ∷ [] in
    let d_plain = All-append IsPlain ps (p ∷ []) l (h, tt) in
    let d_full = list_append-ne-nil ps (p ∷ []) (cc) in
    rw
      (
        path_join-ne-nil _ _ (join-ne-nil d d_full d_plain),
        join_buffer-ne-nil _ _ _ (join-ne-nil d d_full d_plain),
        join_buffer-ne-nil _ _ _ (append-ne-nil _ _ _),
        join_buffer-nil,
        append_assoc,
      )
      (clean-join-append d (ps ++ qs) (codes "..//" ++ join qs slash) d_full d_plain
        (rw (split-up qs k m) (clean_loop-up ps qs p h m)) (list_append-ne-nil ps qs k))

pub contains-slash : (s b : Str) → contains (s ++ slash ∷ b) slash ≡ true
contains-slash [] b = refl
contains-slash (c ∷ s) b = ground (arith, contains-slash s b)

pub contains-Lacks : (b : Str) → Lacks slash b → contains b slash ≡ false
contains-Lacks [] h = refl
contains-Lacks (c ∷ b) h = ground (arith, contains-Lacks b h.1, h.0)

pub behind_slash-append : (s b : Str) → Lacks slash b → behind_slash (s ++ slash ∷ b) ≡ b
unfolding behind_slash
behind_slash-append [] b h = ground (arith, contains-Lacks b h)
behind_slash-append (c ∷ s) b h = ground (arith, contains-slash s b, behind_slash-append s b h)

up_to_slash-append : (s b : Str) → Lacks slash b → up_to_slash (s ++ slash ∷ b) ≡ s ++ slash ∷ []
unfolding up_to_slash
up_to_slash-append [] b h = ground (arith, contains-Lacks b h)
up_to_slash-append (c ∷ s) b h = ground (arith, contains-slash s b, up_to_slash-append s b h)

behind_slash-Lacks : (b : Str) → Lacks slash b → behind_slash b ≡ b
unfolding behind_slash
behind_slash-Lacks [] h = refl
behind_slash-Lacks (c ∷ b) h = ground (arith, contains-Lacks b h.1, h.0)

strip_slashes-Lacks : (b : Str) → Lacks slash b → strip_slashes b ≡ b
unfolding strip_slashes
strip_slashes-Lacks [] h = refl
strip_slashes-Lacks (c ∷ b) h = ground (arith, strip_slashes-Lacks b h.1, h.0)

strip_slashes-append : (s b : Str) → b ≢ [] → Lacks slash b → strip_slashes (s ++ b) ≡ s ++ b
unfolding strip_slashes
strip_slashes-append [] b k h = strip_slashes-Lacks b h
strip_slashes-append (c ∷ s) [] k h = absurd (k refl)
strip_slashes-append (c ∷ s) (d ∷ b) k h =
    ground
      (arith, strip_slashes-append s (d ∷ b) k h, append-ne-nil s b d, str_beq_iff (s ++ d ∷ b) [])

or_slash-ne-nil : (b : Str) → b ≢ [] → or_slash b ≡ b
unfolding or_slash
or_slash-ne-nil [] k = absurd (k refl)
or_slash-ne-nil (c ∷ b) k = refl

base-ne-nil : (s : Str) → s ≢ [] → base s ≡ or_slash (behind_slash (strip_slashes s))
unfolding base
base-ne-nil [] k = absurd (k refl)
base-ne-nil (c ∷ s) k = refl

-- The base of a path is the component behind the last slash.
pub base-append : (s b : Str) → IsPlain b → base (s ++ slash ∷ b) ≡ b
base-append s b h =
    rw
      (
        base-ne-nil _ (append-ne-nil s b slash),
        ← append_assoc s (slash ∷ []) b,
        strip_slashes-append (s ++ slash ∷ []) b h.not_empty h.lacks,
        append_assoc s (slash ∷ []) b,
        behind_slash-append s b h.lacks,
      )
      (or_slash-ne-nil b h.not_empty)

pub base-IsPlain : (b : Str) → IsPlain b → base b ≡ b
base-IsPlain b h =
    rw (base-ne-nil b h.not_empty, strip_slashes-Lacks b h.lacks, behind_slash-Lacks b h.lacks)
      (or_slash-ne-nil b h.not_empty)

-- The directory of a path of plain components is the path of all but the last.
pub dir-join :
    (ps : List Str) (b : Str)
    → ps ≢ []
    → All IsPlain ps
    → Lacks slash b
    → dir (join ps slash ++ slash ∷ b) ≡ join ps slash
unfolding dir clean_loop clean_step split str_beq
dir-join ps b k l h =
    rw (up_to_slash-append (join ps slash) b h)
      (clean-join-append ps ps [] k l (clean_loop-IsPlain false ps [] tt ∙ append-nil ps) k)
