-- ===== src/GoPath/Tests.antt =====
-- Runs of the path functions, against the documentation of the packages.
use unstructured_data_contro.Prelude.{◌≡◌, refl, codes, ◌∷◌, [], nat_eq, list_eq}
use unstructured_data_contro.GoPath.{clean, join, dir, ext}

clean_runs :
    (clean (codes "a//b/./c/../d/") ≡ codes "a/b/d")
    × (clean (codes "/../a") ≡ codes "/a")
    × (clean (codes "../../a") ≡ codes "../../a")
    × (clean [] ≡ codes ".")
    × (clean (codes "a/..") ≡ codes ".")
unfolding clean nat_eq list_eq
clean_runs = (refl, refl, refl, refl, refl)

join_runs :
    (join (codes "pipelines" ∷ codes "p" ∷ codes "stages" ∷ codes "s" ∷ [])
      ≡ codes "pipelines/p/stages/s")
    × (join ([] ∷ codes "a" ∷ []) ≡ codes "a")
    × (join ([] ∷ []) ≡ [])
    × (join (codes "/root" ∷ codes "/x" ∷ []) ≡ codes "/root/x")
unfolding join nat_eq list_eq
join_runs = (refl, refl, refl, refl)

dir_runs : (dir (codes "/r/a/b.txt") ≡ codes "/r/a") × (dir (codes "b") ≡ codes ".")
unfolding dir nat_eq list_eq
dir_runs = (refl, refl)

ext_runs : (ext (codes "a.b/c") ≡ []) × (ext (codes "x/c.tar.gz") ≡ codes ".gz")
unfolding ext nat_eq
ext_runs = (refl, refl)
