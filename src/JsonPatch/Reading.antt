-- ===== src/JsonPatch/Reading.antt =====
-- What RFC 6902 makes of an operation, and what the constructors of typescript/src/jsonpatch.ts are
-- for.
use signet_clients.Prelude.{
  Option, none, some, List, [], ◌∷◌, ◌++◌, ◌==◌, if◌then◌else◌, ◌≡◌, refl, arith,
}
use mathlib.Core.Option.{map as map_option}
use signet_clients.Runtime.{Text, codes}
use signet_clients.Strings.{same_text, before_first, slash}
use signet_clients.Structs.{Any}
use signet_clients.Admin.JsonPatchOperation.{JsonPatchOperation}
use signet_clients.JsonPatch.{
  json_patch_append, json_patch_add, json_patch_replace, json_patch_remove, json_patch_test,
}

-- The reference tokens of a JSON Pointer (RFC 6901) as they are written: each stands behind a slash.
abbrev pub tokens : Text → List Text
tokens [] = []
tokens (c ∷ s) = let rest = tokens s in if c == slash then before_first slash s ∷ rest else rest

-- A pointer is empty or starts with a slash.
abbrev pub pointer : Text → Option (List Text)
pointer [] = some []
pointer (c ∷ s) = if c == slash then some (tokens (c ∷ s)) else none

-- What is done to a document, and where. Under an array the token "-" stands for its end.
pub data Edit : Type 0 where
  add_at replace_at test_at : List Text → Any → Edit
  remove_at : List Text → Edit

-- An operation by the name that RFC 6902 gives it; "move" and "copy" are left out.
abbrev pub understood : JsonPatchOperation → Option Edit
understood o =
    if same_text o.op (codes "add")
    then map_option (λ p. add_at p o.value) (pointer o.path)
    else if same_text o.op (codes "remove")
    then map_option (λ p. remove_at p) (pointer o.path)
    else if same_text o.op (codes "replace")
    then map_option (λ p. replace_at p o.value) (pointer o.path)
    else if same_text o.op (codes "test")
    then map_option (λ p. test_at p o.value) (pointer o.path)
    else none

-- A call of one of the constructors.
pub data Change : Type 0 where
  append add replace test : Text → Any → Change
  remove : Text → Change

abbrev pub operation_of : Change → JsonPatchOperation
operation_of (append path v) = json_patch_append path v
operation_of (add path v) = json_patch_add path v
operation_of (replace path v) = json_patch_replace path v
operation_of (test path v) = json_patch_test path v
operation_of (remove path) = json_patch_remove path

-- What the call is for: an appended value is added behind the last element of the array at the path.
abbrev pub intended : Change → Option Edit
intended (append path v) = map_option (λ p. add_at (p ++ codes "-" ∷ []) v) (pointer path)
intended (add path v) = map_option (λ p. add_at p v) (pointer path)
intended (replace path v) = map_option (λ p. replace_at p v) (pointer path)
intended (test path v) = map_option (λ p. test_at p v) (pointer path)
intended (remove path) = map_option (λ p. remove_at p) (pointer path)

before_first-slash : (s : Text) → before_first slash (s ++ codes "/-") ≡ before_first slash s
unfolding before_first
before_first-slash [] = refl
before_first-slash (c ∷ s) = ground (arith, before_first-slash s)

tokens-append : (s : Text) → tokens (s ++ codes "/-") ≡ tokens s ++ codes "-" ∷ []
unfolding before_first
tokens-append [] = refl
tokens-append (c ∷ s) = ground (arith, before_first-slash s, tokens-append s)

appended :
    (path : Text) (v : Any)
    → map_option (λ p. add_at p v) (pointer (path ++ codes "/-"))
      ≡ map_option (λ p. add_at (p ++ codes "-" ∷ []) v) (pointer path)
unfolding before_first
appended [] v = refl
appended (c ∷ s) v = ground (arith, before_first-slash s, tokens-append s)

-- A constructor's operation is understood as what the constructor is for.
pub understood-operation_of : (c : Change) → understood (operation_of c) ≡ intended c
unfolding json_patch_append json_patch_add json_patch_replace json_patch_remove json_patch_test
    same_text
understood-operation_of (append path v) = appended path v
understood-operation_of (add path v) = refl
understood-operation_of (replace path v) = refl
understood-operation_of (test path v) = refl
understood-operation_of (remove path) = refl
