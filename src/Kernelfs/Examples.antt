-- ===== src/Kernelfs/Examples.antt =====
-- A directory made in an empty root, at address 1.
use plenjos_kernel.Prelude.{
  ℕ, ◌≤◌, ◌<◌, ◌≡◌, ◌⊎◌, refl, arith, true, none, some, List, [], ◌∷◌, ◌++◌, length,
}
use plenjos_kernel.Fscache.{enoent}
use plenjos_kernel.Kernelfs.{Store, Entry, find_child, fails, populated, kernelfs_create_child}
use plenjos_kernel.Kernelfs.Create.{Fresh, with_child, over, kernelfs_create_child_lem}

abbrev empty_dir : Entry
empty_dir = record { name = []; type = 4; uid = 0; gid = 0; mode = 493; children = [] }

abbrev root_alone : Store
root_alone = λ u. empty_dir

two_fresh : Fresh root_alone 1 2
two_fresh = record { apart = omega arith; no_child = tt; no_loop = tt }

no_such_child : find_child root_alone [] (97 ∷ []) ≡ none
unfolding find_child
no_such_child = refl

abbrev name_a : List ℕ
name_a = 97 ∷ []

abbrev grown : Store
grown = with_child root_alone 1 2 name_a 0 0 493

kernelfs_create_child_lem_example :
    ((grown 1).children ≡ [] ++ 2 ∷ [])
    × (((length name_a ≤ 255)
          × (kernelfs_create_child true (some 2) 4 1 name_a 4 0 0 493 root_alone
              ≡ (populated (over 2 4 name_a 0 0 493), grown)))
        ⊎ ((255 < length name_a)
            × (kernelfs_create_child true (some 2) 4 1 name_a 4 0 0 493 root_alone
                ≡ (fails enoent, grown))))
kernelfs_create_child_lem_example =
    kernelfs_create_child_lem root_alone 1 2 97 [] 0 0 493 two_fresh no_such_child refl
