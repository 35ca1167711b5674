-- ===== src/Base/Dict.antt =====
-- A JavaScript object with text keys: an association list in insertion order.
use Prim.Native.String.{String}
use mathlib.Core.Path.{◌≡◌, refl}
use mathlib.Core.Logic.{inl, inr}
use mathlib.Core.Bool.{true, ◌||◌}
use mathlib.Core.Option.{Option, none, some}
use mathlib.Core.List.{List, [], ◌∷◌}
use native.Mathlib.Omega.{arith}
use text.Mathlib.Text.{◌==◌}
use text.Mathlib.TextEquality.{eq_iff}
use gwarestrin.Base.Tests.{Bool-cases, is_some, if◌then◌else◌}
use gwarestrin.Base.Members.{elem, IsDistinct}

-- The names that an object has without being given them.
abbrev pub object_names : List String
object_names =
    "constructor" ∷ "hasOwnProperty" ∷ "isPrototypeOf" ∷ "propertyIsEnumerable" ∷ "toLocaleString"
    ∷ "toString" ∷ "valueOf" ∷ "__proto__" ∷ "__defineGetter__" ∷ "__defineSetter__"
    ∷ "__lookupGetter__" ∷ "__lookupSetter__" ∷ []

module _ {ℓ} {V : Type ℓ} where
  -- `o[k]`
  abbrev pub lookup : String → List (String × V) → Option V
  lookup k [] = none
  lookup k ((j, v) ∷ m) = if k == j then some v else lookup k m

  -- `o[k] = v`
  abbrev pub insert : String → V → List (String × V) → List (String × V)
  insert k v [] = (k, v) ∷ []
  insert k v ((j, w) ∷ m) = if k == j then (k, v) ∷ m else (j, w) ∷ insert k v m

  -- `Object.keys(o)`
  abbrev pub keys : List (String × V) → List String
  keys [] = []
  keys ((k, v) ∷ m) = k ∷ keys m

  pub elem-keys :
      (k : String) (m : List (String × V))
      → elem k (keys m) ≡ true
      → (v : V) × (lookup k m ≡ some v)
  elem-keys k [] h = absurd (ground arith)
  elem-keys k ((j, v) ∷ m) h = elim (Bool-cases (k == j)) [
    | inl e ↦ (v, ground arith)
    | inr e ↦ let (w, found) = elem-keys k m (ground arith) in (w, ground arith)
  ]

  pub elem-keys-eq : (k : String) (m : List (String × V)) → elem k (keys m) ≡ is_some (lookup k m)
  elem-keys-eq k [] = refl
  elem-keys-eq k ((j, w) ∷ m) = ground (arith, elem-keys-eq k m)

  pub keys-lookup :
      (k : String) (m : List (String × V)) (v : V) → lookup k m ≡ some v → elem k (keys m) ≡ true
  keys-lookup k [] v h = cc
  keys-lookup k ((j, w) ∷ m) v h = ground (arith, keys-lookup k m v)

  pub lookup-insert :
      (k j : String) (v : V) (m : List (String × V))
      → lookup j (insert k v m) ≡ (if j == k then some v else lookup j m)
  lookup-insert k j v [] = refl
  lookup-insert k j v ((i, w) ∷ m) =
      ground (arith, eq_iff k i, eq_iff j k, eq_iff j i, lookup-insert k j v m)

  pub elem-keys-insert :
      (k j : String) (v : V) (m : List (String × V))
      → elem j (keys (insert k v m)) ≡ (j == k || elem j (keys m))
  elem-keys-insert k j v [] = refl
  elem-keys-insert k j v ((i, w) ∷ m) =
      ground (arith, eq_iff k i, eq_iff j k, eq_iff j i, elem-keys-insert k j v m)

  pub insert-IsDistinct :
      (k : String) (v : V) (m : List (String × V))
      → IsDistinct (keys m)
      → IsDistinct (keys (insert k v m))
  insert-IsDistinct k v [] h = (refl, tt)
  insert-IsDistinct k v ((i, w) ∷ m) h =
      ground (arith, eq_iff k i, eq_iff i k, elem-keys-insert k i v m, insert-IsDistinct k v m h.1)

  -- `delete o[k]`
  abbrev pub remove : String → List (String × V) → List (String × V)
  remove k [] = []
  remove k ((j, v) ∷ m) = let rest = remove k m in if k == j then rest else (j, v) ∷ rest

  pub lookup-remove :
      (k j : String) (m : List (String × V))
      → lookup j (remove k m) ≡ (if j == k then none else lookup j m)
  lookup-remove k j [] = ground arith
  lookup-remove k j ((i, w) ∷ m) =
      ground (arith, eq_iff k i, eq_iff j k, eq_iff j i, lookup-remove k j m)
