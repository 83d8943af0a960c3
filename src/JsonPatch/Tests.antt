-- ===== src/JsonPatch/Tests.antt =====
-- The theorem on patches at a concrete input.
use signet_clients.Prelude.{ℕ, true, map, some, List, [], ◌∷◌, ◌++◌, ◌≡◌, refl}
use signet_clients.Runtime.{codes}
use signet_clients.Strings.{before_first}
use signet_clients.Structs.{boolean}
use signet_clients.Admin.JsonPatchOperation
use signet_clients.Admin.PatchServiceConfigRequest
use signet_clients.JsonPatch.Reading.{Change, append, remove, add_at, remove_at, intended}

abbrev changes : List Change
changes = append (codes "/a") (boolean true) ∷ remove (codes "/b") ∷ []

-- The namespace, the service, and the operations as chunks of 15 and 12 units.
abbrev patch_bytes : List ℕ
patch_bytes =
    (10 ∷ 1 ∷ codes "n")
    ++ ((18 ∷ 1 ∷ codes "s")
        ++ ((26 ∷ 15 ∷ 10 ∷ 3 ∷ codes "add")
            ++ ((18 ∷ 4 ∷ codes "/a/-")
                ++ ((34 ∷ 2 ∷ 32 ∷ 1 ∷ 26 ∷ 12 ∷ 10 ∷ 6 ∷ codes "remove")
                    ++ (18 ∷ 2 ∷ codes "/b")))))

-- What the two calls are for.
changes_meant :
    map intended changes
    ≡ some (add_at (codes "a" ∷ codes "-" ∷ []) (boolean true))
      ∷ some (remove_at (codes "b" ∷ []))
      ∷ []
unfolding before_first
changes_meant = refl
