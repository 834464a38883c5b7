-- ===== src/Index/Nearest.antt =====
-- The search `find_nearest_drivers` in rings of cells.
use mathlib.Core.Path.{subst, sym}
use rideshare_simulation_pla.Prelude.{
  ℕ, zero, suc, ◌+◌, ◌*◌, ◌≤◌, ◌<◌, ◌≡◌, refl, ◌≢◌, inl, inr, ◌∙◌, ap, Bool, true, false, not, some,
  List, [], ◌∷◌, ◌++◌, ◌==◌, if◌then◌else◌, arith, Bool-cases, Option-cases, All, keep, leb, min,
}
use rideshare_simulation_pla.Prelude.Dict.{Dict, lookup}
use rideshare_simulation_pla.Prelude.IdSet.{member}
use rideshare_simulation_pla.Registry.{DriverStatus}
use rideshare_simulation_pla.Trip.{Location}
use rideshare_simulation_pla.Index.{
  DriverIndex, Grid, candidate, candidates_among, candidates_in, drivers_of, expand, max_rings,
  find_nearest_drivers, sort_by_distance, insert_by_distance,
}
use rideshare_simulation_pla.Index.Cells.{IsIndexed}
use rideshare_simulation_pla.Index.Ascending.{
  IsAscending, sorted_empty, sort_by_distance-IsAscending,
}

append_nil : (cs ds : List (ℕ × ℕ)) → cs ++ ds ≡ [] → (cs ≡ []) × (ds ≡ [])
append_nil [] ds e = (refl, e)
append_nil (c ∷ cs) ds e = ground arith

module _ (g : Grid) (l : Location) (radius : ℕ) (passes : DriverStatus → Bool)
    (x : DriverIndex) where
  open g use {latlng_to_cell, grid_disk, haversine_m}

  -- What the answer may hold: a driver whose status passes, with its true distance, in the radius.
  pub record IsNear (c : ℕ × ℕ) : Type 0 where
    pub status : DriverStatus
    pub at : Location × ℕ
    pub has_status : lookup (c.0) x.driver_status ≡ some status
    pub status_passes : passes status ≡ true
    pub has_location : lookup (c.0) x.driver_locations ≡ some at
    pub distance : c.1 ≡ haversine_m l (at.0)
    pub in_radius : c.1 ≤ radius

  candidate-All : (d : ℕ) → All IsNear (candidate g l radius passes x d)
  unfolding candidate
  candidate-All d = elim (Option-cases (lookup d x.driver_status)) [
    | inl n ↦ rw (n, candidate) tt
    | inr (s, h) ↦ elim (Bool-cases (passes s)) [
      | inr p ↦ rw (h, p, candidate) tt
      | inl p ↦ elim (Option-cases (lookup d x.driver_locations)) [
        | inl n ↦ rw (h, p, n, candidate) tt
        | inr (a, k) ↦ elim (Bool-cases (leb (haversine_m l (a.0)) radius)) [
          | inr o ↦ rw (h, p, k, o, candidate) tt
          | inl o ↦
              rw (h, p, k, o, candidate)
                (
                  record {
                    status = s;
                    at = a;
                    has_status = h;
                    status_passes = p;
                    has_location = k;
                    distance = refl;
                    in_radius = ground arith;
                  },
                  tt,
                )
        ]
      ]
    ]
  ]

  All-append : (cs ds : List (ℕ × ℕ)) → All IsNear cs → All IsNear ds → All IsNear (cs ++ ds)
  All-append [] ds u v = v
  All-append (c ∷ cs) ds u v = (u.0, All-append cs ds u.1 v)

  candidates_among-All : (ds : List ℕ) → All IsNear (candidates_among g l radius passes x ds)
  unfolding candidates_among
  candidates_among-All [] = tt
  candidates_among-All (d ∷ ds) = All-append _ _ (candidate-All d) (candidates_among-All ds)

  candidates_in-All : (cs : List ℕ) → All IsNear (candidates_in g l radius passes x cs)
  unfolding candidates_in
  candidates_in-All [] = tt
  candidates_in-All (c ∷ cs) =
      All-append _ _ (candidates_among-All (drivers_of g c x)) (candidates_in-All cs)

  -- A driver in the radius that passes makes a candidate of its cell.
  among_some :
      (d m : ℕ) (ds : List ℕ)
      → candidate g l radius passes x d ≡ (d, m) ∷ []
      → member d ds ≡ true
      → candidates_among g l radius passes x ds ≢ []
  unfolding candidates_among member
  among_some d m [] c h e = ground arith
  among_some d m (k ∷ ks) c h e = elim (Bool-cases (k == d)) [
    | inl q ↦ ground arith
    | inr q ↦
        among_some d m ks c (ground arith) (append_nil (candidate g l radius passes x k) _ e).1
  ]

  in_some :
      (d m b : ℕ) (cs : List ℕ)
      → candidate g l radius passes x d ≡ (d, m) ∷ []
      → member d (drivers_of g b x) ≡ true
      → member b cs ≡ true
      → candidates_in g l radius passes x cs ≢ []
  unfolding candidates_in member
  in_some d m b [] c n h e = ground arith
  in_some d m b (k ∷ ks) c n h e = elim (Bool-cases (k == b)) [
    | inl q ↦ among_some d m (drivers_of g b x) c n (
        ground
          (arith, (append_nil (candidates_among g l radius passes x (drivers_of g k x)) _ e).0))
    | inr q ↦
        in_some d m b ks c n (ground arith)
          (append_nil (candidates_among g l radius passes x (drivers_of g k x)) _ e).1
  ]

  abbrev ring : ℕ → ℕ → List ℕ
  ring k max_k = grid_disk (latlng_to_cell l) (min k max_k)

  abbrev searched : ℕ → ℕ → List ℕ → List (ℕ × ℕ)
  searched k max_k checked =
      candidates_in g l radius passes x (keep (λ c. not (member c checked)) (ring k max_k))

  -- What one call of the search does, by what its ring holds.
  ring_found :
      (fuel k max_k : ℕ) (checked : List ℕ) {c : ℕ × ℕ} {cs : List (ℕ × ℕ)}
      → searched k max_k checked ≡ c ∷ cs
      → expand g (suc fuel) k max_k checked l radius passes x ≡ some (c ∷ cs)
  unfolding expand
  ring_found fuel k max_k checked e = rw (e, expand) refl

  ring_empty :
      (fuel k max_k : ℕ) (checked : List ℕ)
      → searched k max_k checked ≡ []
      → expand g (suc fuel) k max_k checked l radius passes x ≡ (
          if leb max_k (min k max_k)
          then some []
          else expand g fuel (k * 2) max_k (checked ++ ring k max_k) l radius passes x)
  unfolding expand
  ring_empty fuel k max_k checked e = rw (e, expand) refl

  abbrev Answers : ℕ → ℕ → ℕ → List ℕ → Type 0
  Answers fuel k max_k checked =
      (found : List (ℕ × ℕ)) × (expand g fuel k max_k checked l radius passes x ≡ some found)
      × All IsNear found

  -- The search ends with an answer: the rings grow to the last one.
  expand_ends :
      (fuel k max_k : ℕ) (checked : List ℕ) (found : List (ℕ × ℕ))
      → searched k max_k checked ≡ found
      → 0 < k
      → max_k ≤ k + fuel
      → Answers (suc fuel) k max_k checked
  expand_ends fuel k max_k checked (c ∷ cs) e p q =
      (c ∷ cs, ring_found fuel k max_k checked e, subst (All IsNear) e (candidates_in-All _))
  expand_ends zero k max_k checked [] e p q =
      ([], ring_empty zero k max_k checked e ∙ ground arith, tt)
  expand_ends (suc fuel) k max_k checked [] e p q = elim (Bool-cases (leb max_k (min k max_k))) [
    | inl b ↦ ([], ring_empty (suc fuel) k max_k checked e ∙ rw b refl, tt)
    | inr b ↦
        let (found, ends, near) =
          expand_ends fuel (k * 2) max_k (checked ++ ring k max_k) _ refl (omega arith)
            (ground arith) in
        (found, ring_empty (suc fuel) k max_k checked e ∙ rw b ends, near)
  ]

  insert_by_distance-All :
      (c : ℕ × ℕ) (cs : List (ℕ × ℕ))
      → IsNear c
      → All IsNear cs
      → All IsNear (insert_by_distance c cs)
  unfolding insert_by_distance
  insert_by_distance-All c [] n a = (n, tt)
  insert_by_distance-All (d, m) ((e, k) ∷ r) n a = elim (Bool-cases (leb m k)) [
    | inl b ↦ rw (b, insert_by_distance) (n, a)
    | inr b ↦ rw (b, insert_by_distance) (a.0, insert_by_distance-All (d, m) r n a.1)
  ]

  sort_by_distance-All : (cs : List (ℕ × ℕ)) → All IsNear cs → All IsNear (sort_by_distance cs)
  unfolding sort_by_distance
  sort_by_distance-All [] a = tt
  sort_by_distance-All (c ∷ cs) a =
      insert_by_distance-All c (sort_by_distance cs) a.0 (sort_by_distance-All cs a.1)

  -- A driver that the index has at a place in the radius, with a status that passes, and whose cell is in
  -- the last ring: what a search must not miss.
  pub record IsThere (d : ℕ) : Type 0 where
    pub status : DriverStatus
    pub at : Location
    pub cell : ℕ
    pub has_status : lookup d x.driver_status ≡ some status
    pub status_passes : passes status ≡ true
    pub has_location : lookup d x.driver_locations ≡ some (at, cell)
    pub in_radius : haversine_m l at ≤ radius
    pub in_last_ring : member cell (grid_disk (latlng_to_cell l) (max_rings radius)) ≡ true

  there-candidate :
      (d : ℕ) (t : IsThere d) → candidate g l radius passes x d ≡ (d, haversine_m l t.at) ∷ []
  unfolding candidate
  there-candidate d t =
      rw (t.has_status, t.status_passes, t.has_location, candidate) (ground (arith, t.in_radius))

  member-keep :
      (c : ℕ) (f : ℕ → Bool) (cs : List ℕ) → f c ≡ true → member c (keep f cs) ≡ member c cs
  unfolding member
  member-keep c f [] h = refl
  member-keep c f (k ∷ cs) h = ground (arith, member-keep c f cs h)

  member-append :
      (c : ℕ) (cs ds : List ℕ) → member c (cs ++ ds) ≡ (if member c cs then true else member c ds)
  unfolding member
  member-append c [] ds = ground arith
  member-append c (k ∷ cs) ds = ground (arith, member-append c cs ds)

  -- A round that answers nothing has not had the cell of a driver that is there in its ring.
  member-ring :
      (d : ℕ) (t : IsThere d) (k : ℕ) (checked : List ℕ)
      → member d (drivers_of g t.cell x) ≡ true
      → member t.cell checked ≡ false
      → searched k (max_rings radius) checked ≡ []
      → member t.cell (ring k (max_rings radius)) ≡ false
  member-ring d t k checked m u e = elim (Bool-cases (member t.cell (ring k (max_rings radius)))) [
    | inr n ↦ n
    | inl i ↦
        elim (in_some d (haversine_m l t.at) t.cell
          (keep (λ c. not (member c checked)) (ring k (max_rings radius))) (there-candidate d t) m
          (member-keep t.cell (λ c. not (member c checked)) (ring k (max_rings radius)) (rw u refl)
            ∙ i)
          e) [ ]
  ]

  out_of_fuel :
      (k max_k : ℕ) (checked : List ℕ) → expand g zero k max_k checked l radius passes x ≢ some []
  unfolding expand
  out_of_fuel k max_k checked q = ground arith

  last_ring :
      (k : ℕ)
      → leb (max_rings radius) (min k (max_rings radius)) ≡ true
      → ring k (max_rings radius) ≡ grid_disk (latlng_to_cell l) (max_rings radius)
  last_ring k b = ap (grid_disk (latlng_to_cell l)) (ground arith)

  -- No round passes over the cell of a driver that is there.
  expand_finds :
      (d : ℕ) (t : IsThere d) (fuel k : ℕ) (checked : List ℕ) (found : List (ℕ × ℕ))
      → member d (drivers_of g t.cell x) ≡ true
      → member t.cell checked ≡ false
      → searched k (max_rings radius) checked ≡ found
      → expand g fuel k (max_rings radius) checked l radius passes x ≢ some []
  expand_finds d t zero k checked found m u e q = out_of_fuel k (max_rings radius) checked q
  expand_finds d t (suc fuel) k checked (c ∷ cs) m u e q =
      ground (arith, ring_found fuel k (max_rings radius) checked e)
  expand_finds d t (suc fuel) k checked [] m u e q =
      let outside = member-ring d t k checked m u e in
      elim (Bool-cases (leb (max_rings radius) (min k (max_rings radius)))) [
        | inl b ↦ ground (arith, ap (member t.cell) (last_ring k b), t.in_last_ring)
        | inr b ↦
            expand_finds d t fuel (k * 2) (checked ++ ring k (max_rings radius)) _ m
              (member-append t.cell checked (ring k (max_rings radius)) ∙ rw u outside) refl
              (ground (arith, ring_empty fuel k (max_rings radius) checked e))
      ]

  none_there : (d : ℕ) → IsThere d → x.driver_locations ≢ []
  unfolding lookup
  none_there d t e = ground (arith, t.has_location)

  there_listed : (d : ℕ) (t : IsThere d) → IsIndexed g x → member d (drivers_of g t.cell x) ≡ true
  unfolding member drivers_of
  there_listed d t i = ground (arith, i.cells d t.cell, t.has_location)

  abbrev Sound : Type 0
  Sound =
      (found : List (ℕ × ℕ)) × (find_nearest_drivers g l radius passes x ≡ some found)
      × All IsNear found
      × IsAscending found

  sound_some :
      {p : ℕ × (Location × ℕ)} {m : Dict (Location × ℕ)}
      → x.driver_locations ≡ p ∷ m
      → Answers (suc (max_rings radius)) 5 (max_rings radius) []
      → Sound
  unfolding find_nearest_drivers
  sound_some e (found, ends, near) = (
    sort_by_distance found,
    rw (e, ends, find_nearest_drivers) refl,
    sort_by_distance-All found near,
    sort_by_distance-IsAscending found,
  )

  sound_none : x.driver_locations ≡ [] → Sound
  unfolding find_nearest_drivers
  sound_none e = ([], rw (e, find_nearest_drivers) refl, tt, tt)

  -- The search always gives an answer, so the fuel is enough. Every driver of the answer has a status
  -- that passes the filter, a location, and its distance from there, which is within the radius; and the
  -- nearest comes first.
  pub find_nearest_drivers_sound :
      (found : List (ℕ × ℕ)) × (find_nearest_drivers g l radius passes x ≡ some found)
      × All IsNear found
      × IsAscending found
  find_nearest_drivers_sound = go x.driver_locations refl
    where
      go : (m : Dict (Location × ℕ)) → x.driver_locations ≡ m → Sound
      go [] e = sound_none e
      go (p ∷ m) e = sound_some e (
          expand_ends (max_rings radius) 5 (max_rings radius) [] _ refl (omega arith) (omega arith))

  missed :
      (d : ℕ) {p : ℕ × (Location × ℕ)} {m : Dict (Location × ℕ)}
      → x.driver_locations ≡ p ∷ m
      → IsThere d
      → IsIndexed g x
      → Answers (suc (max_rings radius)) 5 (max_rings radius) []
      → find_nearest_drivers g l radius passes x ≢ some []
  unfolding find_nearest_drivers member
  missed d e t i (found, ends, near) q =
      expand_finds d t (suc (max_rings radius)) 5 [] _ (there_listed d t i) refl refl (
        ends
        ∙ ap some
            (sorted_empty found (some_inj (sym (rw (e, ends, find_nearest_drivers) refl) ∙ q))))
    where
      some_inj : {cs ds : List (ℕ × ℕ)} → some cs ≡ some ds → cs ≡ ds
      some_inj h = ground arith

  -- On an index that is in order, the search never answers that nobody is near while some driver whose
  -- status passes is within the radius and its cell in the last ring.
  pub find_nearest_drivers_complete :
      (d : ℕ) → IsIndexed g x → IsThere d → find_nearest_drivers g l radius passes x ≢ some []
  find_nearest_drivers_complete d i t = go x.driver_locations refl
    where
      go :
          (m : Dict (Location × ℕ))
          → x.driver_locations ≡ m
          → find_nearest_drivers g l radius passes x ≢ some []
      go [] e = absurd (none_there d t e)
      go (p ∷ m) e = missed d e t i (
          expand_ends (max_rings radius) 5 (max_rings radius) [] _ refl (omega arith) (omega arith))
