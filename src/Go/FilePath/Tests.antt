-- ===== src/Go/FilePath/Tests.antt =====
-- Runs of `path` on the examples of its documentation.
use blockstorageingestor.Prelude.{◌≡◌, refl, [], ◌∷◌, nat_eq, codes, str_beq, str_eq}
use blockstorageingestor.Go.Strings.{split, join}
use blockstorageingestor.Go.FilePath.{clean, path_join, dir, base}

t1 : clean (codes "/a/../../b//c/.") ≡ codes "/b/c"
unfolding clean split join str_beq
t1 = refl

t2 : clean (codes "../a/./b/../..") ≡ codes ".."
unfolding clean split join str_beq
t2 = refl

t3 : base (codes "a/bc/") ≡ codes "bc"
unfolding base str_beq
t3 = refl

t4 : path_join (codes "u1" ∷ [] ∷ codes "../x" ∷ []) ≡ codes "x"
unfolding path_join clean split join str_beq
t4 = refl

t5 : dir (codes "a/b/c.json") ≡ codes "a/b"
unfolding dir clean split join str_beq
t5 = refl
