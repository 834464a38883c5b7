-- ===== src/Executor/Travels.antt =====
-- The routes and the drives of an executor whose surroundings leave its trip and its driver alone while it is
-- suspended.
use rideshare_simulation_pla.Prelude.{
  ℕ, zero, suc, ◌+◌, ◌-◌, ◌<◌, min, ◌≡◌, refl, ◌⊎◌, inl, inr, Bool, true, false, some, List, [],
  ◌∷◌, ◌++◌, arith, Option-cases, length, get_elem?,
}
use rideshare_simulation_pla.Prelude.Ratio.{Ratio}
use rideshare_simulation_pla.Trip.{TripState, Location, cancelled, CancellationActor, Reason}
use rideshare_simulation_pla.Server.{Server, Error, done, change_rider, no_route, route_unavailable}
use rideshare_simulation_pla.Server.Search.{Route}
use rideshare_simulation_pla.Server.Puppets.{driver_moves}
use rideshare_simulation_pla.Server.Triples.{Post, bind-Post, Post-weaken}
use rideshare_simulation_pla.Agents.{update_route_progress}
use rideshare_simulation_pla.Executor.{
  Surroundings, Reply, routed, permanent, transient, request_route, get_route_with_retry, delay_of,
}
use rideshare_simulation_pla.Executor.Drives.{
  Cancels, who_cancels, progress_index, track_progress, take_along, advance_to, advance, drive_on,
  simulate_drive, no_cancels,
}
use rideshare_simulation_pla.Executor.Steady.{Steady, At, At-Steady, Closed}
use rideshare_simulation_pla.Executor.Steps.{driver_moves-At, abort-Closed}

-- The other processes leave the trip and its driver alone.
abbrev pub IsQuiet : Surroundings → ℕ → ℕ → Type 0
IsQuiet s d t = (x : Ratio) (w : Server) → Steady d t w (s.timeout x w)

-- A route has a point.
abbrev pub HasPoints : Surroundings → Type 0
HasPoints s =
    (n : ℕ) (w : Server) (l m : Location) (r : Route)
    → s.get_route_sync n w l m ≡ routed r
    → 0 < length r.geometry

-- The two exceptions of the route service.
abbrev pub is_route_error : Error → Bool
is_route_error no_route = true
is_route_error route_unavailable = true
is_route_error _ = false

track_progress-Steady : (d t idx : ℕ) (w : Server) → Steady d t w (track_progress d t idx w)
unfolding track_progress change_rider update_route_progress
track_progress-Steady d t idx w = ground arith

take_along-Steady : (d t : ℕ) (l : Location) (w : Server) → Steady d t w (take_along t l w)
unfolding take_along change_rider
take_along-Steady d t l w = ground arith

get_elem?_below :
    {A : Type 0} (xs : List A) (i : ℕ) → i < length xs → (x : A) × (get_elem? xs i ≡ some x)
get_elem?_below (x ∷ xs) zero h = (x, refl)
get_elem?_below (x ∷ xs) (suc i) h = get_elem?_below xs i (omega arith)
get_elem?_below [] i h = absurd (omega arith)

progress_in_range :
    (i n : ℕ) (g : List Location)
    → 0 < length g
    → min (progress_index i n g) (length g - 1) < length g
progress_in_range i n g h = omega arith

module _ (s : Surroundings) (d t : ℕ) {st : TripState} {js : List TripState} where
  advance_to-At :
      {E : Error → Server → Type 0} (idx : ℕ) (destination l : Location) (w : Server)
      → At d t st js w
      → Post E (λ _ v. At d t st js v) (advance_to s d t idx destination l w)
  unfolding advance_to
  advance_to-At idx destination l w a =
      bind-Post (driver_moves s.outside d l) _ (track_progress d t idx w)
        (driver_moves-At d t s.outside l _ (At-Steady a (track_progress-Steady d t idx w)))
        (λ _ v b. record { holds = At-Steady b (take_along-Steady d t l v) })

  advance-At :
      {E : Error → Server → Type 0} (n : ℕ) (destination : Location) (g : List Location) (i : ℕ)
      (w : Server)
      → 0 < length g
      → At d t st js w
      → Post E (λ _ v. At d t st js v) (advance s d t n destination g i w)
  unfolding advance
  advance-At n destination g i w h a =
      let (l, e) =
        get_elem?_below g (min (progress_index i n g) (length g - 1)) (progress_in_range i n g h) in
      rw (e, advance) (advance_to-At (progress_index i n g) destination l w a)

  -- A drive: it goes on to its end, or it stops where somebody cancels.
  drive_on-Post :
      {E : Error → Server → Type 0} {Q : Server → Type 0} (n : ℕ) (c : Cancels) (pause : Ratio)
      (destination : Location) (g : List Location)
      → IsQuiet s d t
      → 0 < length g
      → ((v : Server) → At d t st js v → Q v)
      → ((i : ℕ) (x : CancellationActor × Reason) (v : Server)
          → who_cancels s.settings.rider_cancels_mid_trip c i n ≡ some x
          → Closed d t cancelled (js ++ cancelled ∷ []) v
          → Q v)
      → (left : ℕ) (w : Server) → At d t st js w
      → Post E (λ _ v. Q v) (drive_on s d t n c pause destination g left w)
  unfolding drive_on
  drive_on-Post n c pause destination g quiet h ends stops zero w a = record { holds = ends w a }
  drive_on-Post {E} {Q} n c pause destination g quiet h ends stops (suc left) w a =
      elim (Option-cases (who_cancels s.settings.rider_cancels_mid_trip c (n - suc left) n)) [
        | inr ((by, reason), e) ↦
            rw (e, drive_on)
              (Post-weaken _ (abort-Closed d t by reason "in_transit" w a)
                (λ _ v. stops (n - suc left) (by, reason) v e))
        | inl e ↦
            rw (e, drive_on)
              (bind-Post (advance s d t n destination g (n - suc left)) _ w
                (advance-At n destination g (n - suc left) w h a)
                (next λ u b. drive_on-Post n c pause destination g quiet h ends stops left u b))
      ]
    where
      next :
          ((u : Server)
            → At d t st js u
            → Post E (λ _ u'. Q u') (drive_on s d t n c pause destination g left u))
          → (near : Bool) (v : Server) → At d t st js v
          → Post E
              (λ _ u. Q u)
              (elim near [
                | true ↦ done tt v
                | false ↦ drive_on s d t n c pause destination g left (s.timeout pause v)
              ])
      next k true v b = record { holds = ends v b }
      next k false v b = k (s.timeout pause v) (At-Steady b (quiet pause v))

  -- A drive that nobody can cancel arrives.
  pub simulate_drive-At :
      {E : Error → Server → Type 0} (destination : Location) (r : Route) (w : Server)
      → IsQuiet s d t
      → 0 < length r.geometry
      → At d t st js w
      → Post E (λ _ v. At d t st js v) (simulate_drive s d t no_cancels destination r w)
  unfolding simulate_drive who_cancels
  simulate_drive-At destination r w quiet h a =
      drive_on-Post _ no_cancels _ destination r.geometry quiet h (λ v b. b)
        (λ i x v e c. absurd (ground arith)) _ w a

  -- Any drive arrives, or ends in a cancellation.
  pub simulate_drive-Post :
      {E : Error → Server → Type 0} (c : Cancels) (destination : Location) (r : Route) (w : Server)
      → IsQuiet s d t
      → 0 < length r.geometry
      → At d t st js w
      → Post E
          (λ _ v. At d t st js v ⊎ Closed d t cancelled (js ++ cancelled ∷ []) v)
          (simulate_drive s d t c destination r w)
  unfolding simulate_drive
  simulate_drive-Post c destination r w quiet h a =
      drive_on-Post _ c _ destination r.geometry quiet h (λ v b. inl b) (λ i x v e b. inr b) _ w a

  request_route-At :
      {E : Error → Server → Type 0} (from to : Location)
      → IsQuiet s d t
      → HasPoints s
      → ((e : Error) (v : Server) → is_route_error e ≡ true → At d t st js v → E e v)
      → (left attempt : ℕ) (w : Server) → At d t st js w
      → Post E
          (λ r v. At d t st js v × (0 < length r.geometry))
          (request_route s left attempt from to w)
  unfolding request_route
  request_route-At from to quiet points fails zero attempt w a = record {
    holds = fails route_unavailable w refl a;
  }
  request_route-At {E} from to quiet points fails (suc zero) attempt w a =
      last (s.get_route_sync attempt w from to) refl
    where
      last :
          (reply : Reply)
          → s.get_route_sync attempt w from to ≡ reply
          → Post E
              (λ r v. At d t st js v × (0 < length r.geometry))
              (request_route s 1 attempt from to w)
      last (routed r) e =
          rw (e, request_route) (record { holds = (a, points attempt w from to r e) })
      last permanent e = rw (e, request_route) (record { holds = fails no_route w refl a })
      last transient e = rw (e, request_route) (record { holds = fails route_unavailable w refl a })
  request_route-At {E} from to quiet points fails (suc (suc m)) attempt w a =
      go (s.get_route_sync attempt w from to) refl (
        request_route-At from to quiet points fails (suc m) (attempt + 1) _
          (At-Steady a (quiet (delay_of s attempt) w)))
    where
      go :
          (reply : Reply)
          → s.get_route_sync attempt w from to ≡ reply
          → Post E
              (λ r v. At d t st js v × (0 < length r.geometry))
              (request_route s (suc m) (attempt + 1) from to (s.timeout (delay_of s attempt) w))
          → Post E
              (λ r v. At d t st js v × (0 < length r.geometry))
              (request_route s (suc (suc m)) attempt from to w)
      go (routed r) e again =
          rw (e, request_route) (record { holds = (a, points attempt w from to r e) })
      go permanent e again = rw (e, request_route) (record { holds = fails no_route w refl a })
      go transient e again = rw (e, request_route) again

  pub get_route_with_retry-At :
      {E : Error → Server → Type 0} (from to : Location) (w : Server)
      → IsQuiet s d t
      → HasPoints s
      → ((e : Error) (v : Server) → is_route_error e ≡ true → At d t st js v → E e v)
      → At d t st js w
      → Post E (λ r v. At d t st js v × (0 < length r.geometry)) (get_route_with_retry s from to w)
  unfolding get_route_with_retry
  get_route_with_retry-At from to w quiet points fails a =
      request_route-At from to quiet points fails (suc s.settings.osrm_max_retries) 0 w a
