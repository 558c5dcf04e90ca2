-- ===== src/Base/Maps.antt =====
-- A Go map whose keys are texts, as an association list: a key is found once, the order is forgotten.
use go_syslog.Base.Lists.{Bytes, equal, equal_iff}
use go_syslog.Base.Tests.{if◌then◌else◌}
use mathlib.Core.List.{List, [], ◌∷◌, map}
use mathlib.Core.Option.{Option, none, some}
use mathlib.Core.Path.{◌≡◌, refl}
use native.Mathlib.Omega.{arith}

module _ {ℓ} {V : Type ℓ} where
  -- `v, ok := m[k]`.
  unfoldable pub find : Bytes → List (Bytes × V) → Option V
  find k [] = none
  find k ((j, v) ∷ m) = if equal j k then some v else find k m

  -- `m[k] = v`.
  unfoldable pub assign : Bytes → V → List (Bytes × V) → List (Bytes × V)
  assign k v [] = (k, v) ∷ []
  assign k v ((j, w) ∷ m) = if equal j k then (j, v) ∷ m else (j, w) ∷ assign k v m

  pub find-assign :
      (k j : Bytes) (v : V) (m : List (Bytes × V))
      → find j (assign k v m) ≡ (if equal k j then some v else find j m)
  unfolding find assign
  find-assign k j v [] = refl
  find-assign k j v ((i, w) ∷ m) =
      ground (arith, equal_iff k j, equal_iff i k, equal_iff i j, find-assign k j v m)

  -- The keys, in the order that a `range` over the map would happen to have.
  abbrev pub keys : List (Bytes × V) → List Bytes
  keys m = map (λ x. x.0) m

  -- `delete(m, k)`.
  unfoldable pub delete : Bytes → List (Bytes × V) → List (Bytes × V)
  delete k [] = []
  delete k ((j, v) ∷ m) = if equal j k then delete k m else (j, v) ∷ delete k m
