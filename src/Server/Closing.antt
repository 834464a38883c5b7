-- ===== src/Server/Closing.antt =====
-- How trips leave the server: cancellation, the bounded histories, and the averages over them.
use rideshare_simulation_pla.Prelude.{
  ℕ, ◌+◌, ◌-◌, ◌≤◌, ◌≡◌, refl, ap, inl, inr, Bool, true, false, Option, none, some, List, [], ◌∷◌,
  ◌++◌, if◌then◌else◌, arith, Bool-cases, ◌==◌, ◌∙◌, length, length-drop, length-append,
}
use rideshare_simulation_pla.Prelude.Dict.{lookup, erase, lookup-erase}
use rideshare_simulation_pla.Prelude.IdSet.{member, discard, member-discard}
use rideshare_simulation_pla.Trip.{Trip, cancelled, CancellationActor, Reason, cancel, value}
use rideshare_simulation_pla.Registry.{available}
use rideshare_simulation_pla.Registry.Accuracy.{IsAccurate}
use rideshare_simulation_pla.Agents.{Driver, Rider}
use rideshare_simulation_pla.Agents
use rideshare_simulation_pla.Server.{
  Server, done, modify, emit, change_rider, trip_state, set_driver, release, bind_done,
  driver_status_changed,
}
use rideshare_simulation_pla.Server.Frame.{emit-Kept, change_rider-Kept}
use rideshare_simulation_pla.Server.Answers.{driver_status_changed-ok}
use rideshare_simulation_pla.Agents.Statistics.{record_driver_trip_cancelled}
use rideshare_simulation_pla.Server.Responses.{count_on}
use rideshare_simulation_pla.Server.Endings.{
  append_bounded, track_ending, complete_trip, resolve_reason, free_driver, close_trip, cancel_trip,
  release_driver_of, rider_cancels, trip_cancelled, forget_matching,
}

-- A bounded history stays within its bound, whatever it held, and ends in what was put in.
pub length-append_bounded : (n : ℕ) (xs : List ℕ) (x : ℕ) → length (append_bounded n xs x) ≤ n
unfolding append_bounded
length-append_bounded n xs x =
    omega (arith, length-drop (length xs + 1 - n) (xs ++ x ∷ []), length-append xs (x ∷ []))

abbrev pub IsBounded : Server → Type 0
IsBounded w =
    (length w.completed_trips ≤ w.config.max_trip_history)
    × (length w.cancelled_trips ≤ w.config.max_trip_history)

track_ending-IsBounded : (t : ℕ) (w : Server) → IsBounded w → IsBounded (track_ending t w)
unfolding track_ending
track_ending-IsBounded t w b = ground (
  arith,
  length-append_bounded w.config.max_trip_history w.cancelled_trips t,
  length-append_bounded w.config.max_trip_history w.completed_trips t,
)

pub record Frame (w w' : Server) : Type 0 where
  pub active : w'.active_trips ≡ w.active_trips
  pub reserved : w'.reserved ≡ w.reserved
  pub trip : w'.trip ≡ w.trip
  pub candidates : w'.candidates ≡ w.candidates
  pub retry_queue : w'.retry_queue ≡ w.retry_queue
  pub driver : w'.driver ≡ w.driver
  pub config : w'.config ≡ w.config
  pub fleet : w'.fleet ≡ w.fleet
  pub events : w'.events ≡ w.events

pub track_ending-Frame : (t : ℕ) (w : Server) → Frame w (track_ending t w)
unfolding track_ending
track_ending-Frame t w = ground arith

-- No reservation is left for the driver of a trip that is handed over.
abbrev pub Unreserved : Bool → Option ℕ → Server → Type 0
Unreserved true (some d) w = member d w.reserved ≡ false
Unreserved _ _ w = Unit

-- The end of a trip, handed over or not, keeps both histories within `max_trip_history`, takes the trip
-- and no other off the active ones, and leaves its driver unreserved if the trip is handed over.
pub complete_trip_lem :
    (t : ℕ) (given : Bool) (w : Server)
    → IsBounded w
    → IsBounded (complete_trip t given w)
      × ((x : ℕ)
          → member x (complete_trip t given w).active_trips
            ≡ (if t == x then false else member x w.active_trips))
      × Unreserved given (w.trip t).driver_id (complete_trip t given w)
unfolding complete_trip
complete_trip_lem t given w b =
    let removed = record w { active_trips = discard t w.active_trips } in
    let f = track_ending-Frame t (release_driver_of t removed) in
    (
      ground (arith, track_ending-IsBounded t (release_driver_of t removed)),
      λ x. ground (arith, f, member-discard x t w.active_trips),
      left given (w.trip t).driver_id refl refl f,
    )
  where
    left :
        (b : Bool) (o : Option ℕ)
        → given ≡ b
        → (w.trip t).driver_id ≡ o
        → Frame (release_driver_of t (record w { active_trips = discard t w.active_trips })) (
            track_ending t
              (release_driver_of t (record w { active_trips = discard t w.active_trips })))
        → Unreserved b o (complete_trip t given w)
    left true (some d) g e f = ground (arith, f, member-discard d d w.reserved)
    left true none g e f = tt
    left false o g e f = tt

-- The trip's driver after a cancellation: not reserved, and free if the server knows it.
abbrev Freed : Option ℕ → Server → Server → Type 0
Freed none w w' = Unit
Freed (some d) w w' =
    (member d w'.reserved ≡ false)
    × (member d w.registered ≡ true → (w'.driver d).active_trip ≡ none)

record FreedState (o : Option ℕ) (w w' : Server) : Type 0 where
  freed : Freed o w w'
  active : w'.active_trips ≡ w.active_trips
  trip : w'.trip ≡ w.trip
  candidates : w'.candidates ≡ w.candidates
  retry_queue : w'.retry_queue ≡ w.retry_queue

free_known :
    (d : ℕ) (w : Server)
    → member d w.registered ≡ true
    → IsAccurate w.fleet.registry
    → (w' : Server) × (free_driver (some d) w ≡ done tt w') × FreedState (some d) w w'
unfolding free_driver Agents.complete_trip
free_known d w m v =
    let gone = release d (record w { puppet_drives = erase d w.puppet_drives }) in
    let idle = set_driver d (Agents.complete_trip (gone.driver d)) gone in
    let (f, e, u) = driver_status_changed-ok d available idle v in
    (
      count_on d record_driver_trip_cancelled (record idle { fleet = f }),
      rw (m, free_driver)
          (bind_done (driver_status_changed d available)
            (λ _. modify (count_on d record_driver_trip_cancelled)) idle e),
      record {
        freed = (ground (arith, member-discard d d w.reserved), λ _. ground arith);
        active = refl;
        trip = refl;
        candidates = refl;
        retry_queue = refl;
      },
    )

free_driver-FreedState :
    (o : Option ℕ) (w : Server)
    → IsAccurate w.fleet.registry
    → (w' : Server) × (free_driver o w ≡ done tt w') × FreedState o w w'
unfolding free_driver
free_driver-FreedState none w v = (
  w,
  refl,
  record { freed = tt; active = refl; trip = refl; candidates = refl; retry_queue = refl },
)
free_driver-FreedState (some d) w v = elim (Bool-cases (member d w.registered)) [
  | inl m ↦ free_known d w m v
  | inr n ↦ (
    release d (record w { puppet_drives = erase d w.puppet_drives }),
    ground arith,
    record {
      freed = (ground (arith, member-discard d d w.reserved), λ m. cc);
      active = refl;
      trip = refl;
      candidates = refl;
      retry_queue = refl;
    },
  )
]

release_driver_of-trip : (t : ℕ) (w : Server) → (release_driver_of t w).trip ≡ w.trip
release_driver_of-trip t w = ground arith

-- Cancelling an active trip raises nothing where the driver counters are accurate. The trip is cancelled
-- with the given actor, the stage it was in, and the reason, in which `patience_timeout` has become
-- `rider_cancelled_before_pickup` if any offer was made and `no_drivers_available` if none was; no other
-- trip changes; and the trip is neither active nor has candidates nor a retry any more.
pub cancel_trip-closed :
    (t : ℕ) (by : CancellationActor) (r : Reason) (w : Server)
    → member t w.active_trips ≡ true
    → IsAccurate w.fleet.registry
    → (w' : Server) × (cancel_trip t by r w ≡ done tt w')
      × (w'.trip t
          ≡ cancel by
              (resolve_reason (w.trip t).offer_sequence r)
              (value (w.trip t).state)
              (w.trip t))
      × ((x : ℕ) → w'.trip x ≡ (if t == x then w'.trip t else w.trip x))
      × (member t w'.active_trips ≡ false)
      × (lookup t w'.candidates ≡ none)
      × (lookup t w'.retry_queue ≡ none)
unfolding cancel_trip close_trip complete_trip
cancel_trip-closed t by r w m v =
    let (w₁, e, f) = free_driver-FreedState (w.trip t).driver_id w v in
    let reason = resolve_reason (w.trip t).offer_sequence r in
    let idle = change_rider t rider_cancels w₁ in
    let ended = trip_cancelled t by reason idle in
    let told =
      emit (trip_state cancelled) t (ended.trip t).driver_id (ended.trip t).offer_sequence ended in
    let k = change_rider-Kept t rider_cancels w₁ in
    let l =
      emit-Kept (trip_state cancelled) t (ended.trip t).driver_id (ended.trip t).offer_sequence
        ended in
    let last =
      release_driver_of t
        (record (forget_matching t told) { active_trips = discard t told.active_trips }) in
    let g = track_ending-Frame t last in
    let trips = g.trip ∙ release_driver_of-trip t _ ∙ l.trip in
    let before = k.trip ∙ f.trip in
    (
      close_trip t by reason w₁,
      rw (m, cancel_trip)
          (bind_done (free_driver (w.trip t).driver_id) (λ _. modify (close_trip t by reason)) w e),
      ground (
        arith,
        ap (λ (h : ℕ → Trip). h t) trips,
        ap (λ (h : ℕ → Trip). cancel by reason (value (h t).state) (h t)) before,
      ),
      λ x. ground (
        arith,
        ap (λ (h : ℕ → Trip). h x) trips,
        ap (λ (h : ℕ → Trip). h x) before,
        ap (λ (h : ℕ → Trip). h t) trips,
        ap (λ (h : ℕ → Trip). h t) before,
      ),
      ground (arith, g, member-discard t t told.active_trips),
      ground (arith, g, lookup-erase t t told.candidates),
      ground (arith, g, lookup-erase t t told.retry_queue),
    )
