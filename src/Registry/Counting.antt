-- ===== src/Registry/Counting.antt =====
-- The independent count: how many driver records satisfy a test, and how that changes with the
-- dictionary.
use rideshare_simulation_pla.Prelude.{
  ℕ, ◌+◌, ◌≤◌, ◌≡◌, Bool, true, false, none, some, [], ◌∷◌, arith,
}
use rideshare_simulation_pla.Prelude.Dict.{Dict, lookup, insert, erase, erase_absent, Unique}

-- One if the test holds.
abbrev pub one_if : Bool → ℕ
one_if true = 1
one_if false = 0

module _ {V : Type 0} (p : V → Bool) where
  unfoldable pub count : Dict V → ℕ
  count [] = 0
  count ((k, v) ∷ m) = one_if (p v) + count m

  pub count-insert_new :
      (k : ℕ) (v : V) (m : Dict V)
      → lookup k m ≡ none
      → count (insert k v m) ≡ count m + one_if (p v)
  unfolding count lookup insert
  count-insert_new k v [] h = omega arith
  count-insert_new k v ((j, w) ∷ m) h = ground (arith, count-insert_new k v m)

  pub count-insert_old :
      (k : ℕ) (v w : V) (m : Dict V)
      → lookup k m ≡ some w
      → count (insert k v m) + one_if (p w) ≡ count m + one_if (p v)
  unfolding count lookup insert
  count-insert_old k v w [] h = cc
  count-insert_old k v w ((j, x) ∷ m) h = ground (arith, count-insert_old k v w m)

  pub count_found : (k : ℕ) (w : V) (m : Dict V) → lookup k m ≡ some w → one_if (p w) ≤ count m
  unfolding count lookup
  count_found k w [] h = cc
  count_found k w ((j, x) ∷ m) h = ground (arith, count_found k w m)

  pub count-erase :
      (k : ℕ) (w : V) (m : Dict V)
      → Unique m
      → lookup k m ≡ some w
      → count (erase k m) + one_if (p w) ≡ count m
  unfolding count lookup erase
  count-erase k w [] u h = cc
  count-erase k w ((j, x) ∷ m) u h = ground (arith, count-erase k w m, erase_absent k m)
