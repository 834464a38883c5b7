-- ===== src/Prelude/IdSet.antt =====
-- Python's set of identifiers. Only membership is ever asked.
use Prim.Native.Nat.{ℕ}
use mathlib.Core.Path.{◌≡◌}
use mathlib.Core.List.{List, [], ◌∷◌}
use mathlib.Core.Bool.{Bool, true, false}
use native.Mathlib.Omega.{arith}
use rideshare_simulation_pla.Prelude.Tests.{◌==◌, if◌then◌else◌}

abbrev pub IdSet : Type 0
IdSet = List ℕ

unfoldable pub member : ℕ → IdSet → Bool
member k [] = false
member k (j ∷ s) = if j == k then true else member k s

unfoldable pub add : ℕ → IdSet → IdSet
add k s = if member k s then s else k ∷ s

unfoldable pub discard : ℕ → IdSet → IdSet
discard k [] = []
discard k (j ∷ s) = if j == k then discard k s else j ∷ discard k s

pub member-add : (j k : ℕ) (s : IdSet) → member j (add k s) ≡ (if k == j then true else member j s)
unfolding member add
member-add j k s = ground arith

pub member-discard :
    (j k : ℕ) (s : IdSet) → member j (discard k s) ≡ (if k == j then false else member j s)
unfolding member discard
member-discard j k [] = ground arith
member-discard j k (i ∷ s) = ground (arith, member-discard j k s)
