-- ===== src/Index/Ascending.antt =====
-- The order of the candidates: `candidates.sort` by distance.
use rideshare_simulation_pla.Prelude.{
  ℕ, ◌≤◌, ◌≡◌, refl, ◌≢◌, inl, inr, List, [], ◌∷◌, arith, Bool-cases, leb,
}
use rideshare_simulation_pla.Index.{sort_by_distance, insert_by_distance}

insert_by_distance_some : (c : ℕ × ℕ) (cs : List (ℕ × ℕ)) → insert_by_distance c cs ≢ []
unfolding insert_by_distance
insert_by_distance_some (d, m) [] q = ground arith
insert_by_distance_some (d, m) ((e, n) ∷ r) q = ground arith

-- From the nearest to the farthest.
abbrev pub IsAscending : List (ℕ × ℕ) → Type 0
IsAscending [] = Unit
IsAscending (c ∷ []) = Unit
IsAscending (c ∷ d ∷ ds) = (c.1 ≤ d.1) × IsAscending (d ∷ ds)

IsAscending-tail : (c : ℕ × ℕ) (cs : List (ℕ × ℕ)) → IsAscending (c ∷ cs) → IsAscending cs
IsAscending-tail c [] h = tt
IsAscending-tail c (d ∷ ds) h = h.1

insert_behind :
    (q c : ℕ × ℕ) (cs : List (ℕ × ℕ))
    → q.1 ≤ c.1
    → IsAscending (q ∷ cs)
    → IsAscending (insert_by_distance c cs)
    → IsAscending (q ∷ insert_by_distance c cs)
unfolding insert_by_distance
insert_behind q (d, m) [] h k a = (h, tt)
insert_behind q (d, m) ((e, n) ∷ r) h k a = ground arith

insert_by_distance-IsAscending :
    (c : ℕ × ℕ) (cs : List (ℕ × ℕ)) → IsAscending cs → IsAscending (insert_by_distance c cs)
unfolding insert_by_distance
insert_by_distance-IsAscending (d, m) [] a = tt
insert_by_distance-IsAscending (d, m) ((e, n) ∷ r) a = elim (Bool-cases (leb m n)) [
  | inl b ↦ rw (b, insert_by_distance) (ground arith)
  | inr b ↦
      rw (b, insert_by_distance)
        (insert_behind (e, n) (d, m) r (ground arith) a
          (insert_by_distance-IsAscending (d, m) r (IsAscending-tail (e, n) r a)))
]

pub sort_by_distance-IsAscending : (cs : List (ℕ × ℕ)) → IsAscending (sort_by_distance cs)
unfolding sort_by_distance
sort_by_distance-IsAscending [] = tt
sort_by_distance-IsAscending (c ∷ cs) =
    insert_by_distance-IsAscending c (sort_by_distance cs) (sort_by_distance-IsAscending cs)

pub sorted_empty : (cs : List (ℕ × ℕ)) → sort_by_distance cs ≡ [] → cs ≡ []
unfolding sort_by_distance
sorted_empty [] q = refl
sorted_empty (c ∷ cs) q = absurd (insert_by_distance_some c (sort_by_distance cs) q)
