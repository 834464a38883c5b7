-- ===== src/Engine/Drained.antt =====
-- How a pause of services/simulation/src/engine/__init__.py ends: within two hours, quiet or by force.
use rideshare_simulation_pla.Prelude.{
  ℕ, zero, suc, ◌+◌, ◌*◌, ◌≤◌, ◌≡◌, refl, ap, sym, none, ◌∙◌, ◌⊎◌, inl, inr, true, false, List, [],
  ◌∷◌, ◌++◌, map, append_assoc, append-nil, arith, leb, leb→le, ◌==◌, if◌then◌else◌, Bool-cases,
}
use rideshare_simulation_pla.Prelude.IdSet.{member}
use rideshare_simulation_pla.Trip.{Trip, cancelled, cancel}
use rideshare_simulation_pla.Registry.{available}
use rideshare_simulation_pla.Registry.Accuracy.{IsAccurate}
use rideshare_simulation_pla.Server.{Server, done, set_driver, emit, bind_done}
use rideshare_simulation_pla.Server.Answers.{driver_status_changed-ok}
use rideshare_simulation_pla.Server.Puppets.{driver_turns}
use rideshare_simulation_pla.Engine.{
  Engine, paused, drain_timeout, quiescence_achieved, emit_control_event, Trigger, CancelReport,
}
use rideshare_simulation_pla.Engine.Draining.{
  get_in_flight_trips, get_repositioning_drivers, is_repositioning, is_quiescent, force_cancel_one,
  force_cancel_trip, force_cancel_trips, force_stop_repositioning, force_stop_all,
  transition_to_paused, drained, force_pause, drain_until, run_drain_process,
}

-- What a report says of a cancelled trip.
abbrev pub told_cancelled : ℕ → CancelReport
told_cancelled t = record { trip_id = t; cancellation_stage = "cancelled" }

record Forced (t : ℕ) (e e' : Engine) : Type 0 where
  trip :
      (x : ℕ) → (e'.server.trip x).state ≡ (if t == x then cancelled else (e.server.trip x).state)
  driver : e'.server.driver ≡ e.server.driver
  active : e'.server.active_trips ≡ e.server.active_trips
  now : e'.server.now ≡ e.server.now
  fleet : e'.server.fleet ≡ e.server.fleet
  drivers : e'.active_drivers ≡ e.active_drivers
  reports : e'.cancel_reports ≡ e.cancel_reports ++ told_cancelled t ∷ []

force_cancel_one-Forced : (t : ℕ) (e : Engine) → Forced t e (force_cancel_one t e)
unfolding force_cancel_one force_cancel_trip cancel emit
force_cancel_one-Forced t e = record {
  trip = λ x. ground arith;
  driver = ground arith;
  active = ground arith;
  now = ground arith;
  fleet = ground arith;
  drivers = refl;
  reports = ground arith;
}

-- A forced cancellation cancels exactly the trips that it is given. It leaves the drivers as they are, with
-- their trips, and every trip active; and what it reports as the stage of a cancellation is always
-- `cancelled`, never the stage that the trip was in.
pub force_cancel_trips_lem :
    (ts : List ℕ) (e : Engine)
    → ((t : ℕ)
        → ((force_cancel_trips ts e).server.trip t).state
          ≡ (if member t ts then cancelled else (e.server.trip t).state))
      × ((force_cancel_trips ts e).server.driver ≡ e.server.driver)
      × ((force_cancel_trips ts e).server.active_trips ≡ e.server.active_trips)
      × ((force_cancel_trips ts e).cancel_reports ≡ e.cancel_reports ++ map told_cancelled ts)
unfolding force_cancel_trips member
force_cancel_trips_lem [] e = (λ t. refl, refl, refl, sym (append-nil e.cancel_reports))
force_cancel_trips_lem (t ∷ ts) e =
    let f = force_cancel_one-Forced t e in
    let (trips, driver, active, reports) = force_cancel_trips_lem ts (force_cancel_one t e) in
    (
      λ x. ground (arith, trips x, f.trip x),
      driver ∙ f.driver,
      active ∙ f.active,
      reports
          ∙ ap (λ rs. rs ++ map told_cancelled ts) f.reports
          ∙ append_assoc e.cancel_reports (told_cancelled t ∷ []) (map told_cancelled ts),
    )

clock_and_fleet :
    (ts : List ℕ) (e : Engine)
    → ((force_cancel_trips ts e).server.now ≡ e.server.now)
      × ((force_cancel_trips ts e).server.fleet ≡ e.server.fleet)
unfolding force_cancel_trips
clock_and_fleet [] e = (refl, refl)
clock_and_fleet (t ∷ ts) e =
    let f = force_cancel_one-Forced t e in
    let (now, fleet) = clock_and_fleet ts (force_cancel_one t e) in (now ∙ f.now, fleet ∙ f.fleet)

-- What the end of the repositioning leaves alone.
record Halted (w w' : Server) : Type 0 where
  now : w'.now ≡ w.now
  trip : w'.trip ≡ w.trip
  active : w'.active_trips ≡ w.active_trips
  accurate : IsAccurate w'.fleet.registry

Halted-trans : {u v w : Server} → Halted u v → Halted v w → Halted u w
Halted-trans p q = record {
  now = q.now ∙ p.now;
  trip = q.trip ∙ p.trip;
  active = q.active ∙ p.active;
  accurate = q.accurate;
}

force_stop_repositioning-Halted :
    (d : ℕ) (w : Server)
    → IsAccurate w.fleet.registry
    → (w' : Server) × (force_stop_repositioning d w ≡ done tt w') × Halted w w'
unfolding force_stop_repositioning driver_turns
force_stop_repositioning-Halted d w v =
    let gone = set_driver d (record (w.driver d) { reposition_process = none }) w in
    let turned = set_driver d (record (gone.driver d) { status = available }) gone in
    let (f, e, u) = driver_status_changed-ok d available turned v in
    elim (Bool-cases (is_repositioning gone d)) [
      | inl b ↦ (
        record turned { fleet = f },
        rw (b, force_stop_repositioning) e,
        record { now = refl; trip = refl; active = refl; accurate = u },
      )
      | inr b ↦ (
        gone,
        rw (b, force_stop_repositioning) refl,
        record { now = refl; trip = refl; active = refl; accurate = v },
      )
    ]

force_stop_all-Halted :
    (ds : List ℕ) (w : Server)
    → IsAccurate w.fleet.registry
    → (w' : Server) × (force_stop_all ds w ≡ done tt w') × Halted w w'
unfolding force_stop_all
force_stop_all-Halted [] w v =
    (w, refl, record { now = refl; trip = refl; active = refl; accurate = v })
force_stop_all-Halted (d ∷ ds) w v =
    let (w₁, e₁, h₁) = force_stop_repositioning-Halted d w v in
    let (w₂, e₂, h₂) = force_stop_all-Halted ds w₁ h₁.accurate in
    (
      w₂,
      bind_done (force_stop_repositioning d) (λ _. force_stop_all ds) w e₁ ∙ e₂,
      Halted-trans h₁ h₂,
    )

-- The simulation is paused at a time that is not after `timeout_at`: quiet, or at that time by force.
pub record PausedBy (timeout_at : ℕ) (e : Engine) : Type 0 where
  pub state : e.state ≡ paused
  pub in_time : e.server.now ≤ timeout_at
  pub quiet_or_forced :
      (is_quiescent e ≡ true)
      ⊎ ((e.server.now ≡ timeout_at)
          × ((t : ℕ) → member t e.server.active_trips ≡ true → (e.server.trip t).state ≡ cancelled))

record Told (e e' : Engine) : Type 0 where
  state : e'.state ≡ paused
  server : e'.server ≡ e.server
  drivers : e'.active_drivers ≡ e.active_drivers

transition_to_paused-Told :
    (trigger : Trigger) (e : Engine) → Told e (transition_to_paused trigger e)
unfolding transition_to_paused emit_control_event
transition_to_paused-Told trigger e = ground arith

force_pause-PausedBy :
    (e : Engine)
    → IsAccurate e.server.fleet.registry
    → (e' : Engine) × (force_pause e ≡ drained e') × PausedBy e.server.now e'
unfolding force_pause get_in_flight_trips
force_pause-PausedBy e v =
    let gone = force_cancel_trips (get_in_flight_trips e) e in
    let (trips, _, active, _) = force_cancel_trips_lem (get_in_flight_trips e) e in
    let (now, fleet) = clock_and_fleet (get_in_flight_trips e) e in
    let (w, stopped, h) =
      force_stop_all-Halted (get_repositioning_drivers e) gone.server (rw fleet v) in
    let last = record gone { server = w } in
    let told = transition_to_paused-Told drain_timeout last in
    let clock = ap (λ x. x.now) told.server ∙ h.now ∙ now in
    (
      transition_to_paused drain_timeout last,
      rw (stopped, force_pause) refl,
      record {
        state = told.state;
        in_time = omega (arith, clock);
        quiet_or_forced = inr (
          clock,
          λ t m. ground (
            arith,
            trips t,
            ap (λ x. x.active_trips) told.server,
            h.active,
            active,
            ap (λ x. (x.trip t).state) told.server,
            ap (λ (g : ℕ → Trip). (g t).state) h.trip,
            m,
          ),
        );
      },
    )

PausedBy-at : {n m : ℕ} {e : Engine} → n ≡ m → PausedBy n e → PausedBy m e
PausedBy-at h p = rw⁻¹ h p

quiet_PausedBy :
    (timeout_at : ℕ) (e : Engine)
    → is_quiescent e ≡ true
    → e.server.now ≤ timeout_at
    → PausedBy timeout_at (transition_to_paused quiescence_achieved e)
unfolding get_in_flight_trips get_repositioning_drivers
quiet_PausedBy timeout_at e q h =
    let told = transition_to_paused-Told quiescence_achieved e in
    record {
      state = told.state;
      in_time = ground (arith, told.server, h);
      quiet_or_forced = inl (ground (arith, told, q));
    }

module _ (elapse : Engine → Engine) where
  -- One round, given what follows it.
  round :
      (k timeout_at : ℕ) (e : Engine)
      → e.server.now + 5 * k ≡ timeout_at
      → IsAccurate e.server.fleet.registry
      → (leb timeout_at e.server.now ≡ false
          → (e' : Engine) × (drain_until elapse k timeout_at (elapse e) ≡ drained e')
            × PausedBy timeout_at e')
      → (e' : Engine) × (drain_until elapse (suc k) timeout_at e ≡ drained e')
        × PausedBy timeout_at e'
  unfolding drain_until
  round k timeout_at e due v later = elim (Bool-cases (is_quiescent e)) [
    | inl q ↦ (
      transition_to_paused quiescence_achieved e,
      ground (arith, q),
      quiet_PausedBy timeout_at e q (omega (arith, due)),
    )
    | inr q ↦ elim (Bool-cases (leb timeout_at e.server.now)) [
      | inl late ↦
          let (e', f, p) = force_pause-PausedBy e v in
          (
            e',
            ground (arith, q, late, f),
            PausedBy-at (omega (arith, leb→le timeout_at e.server.now late, due)) p,
          )
      | inr early ↦ let (e', f, p) = later early in (e', ground (arith, q, early, f), p)
    ]
  ]

  drain_until-PausedBy :
      (k timeout_at : ℕ) (e : Engine)
      → ((x : Engine) → (elapse x).server.now ≡ x.server.now + 5)
      → ((x : Engine)
          → IsAccurate x.server.fleet.registry
          → IsAccurate (elapse x).server.fleet.registry)
      → e.server.now + 5 * k ≡ timeout_at
      → IsAccurate e.server.fleet.registry
      → (e' : Engine) × (drain_until elapse (suc k) timeout_at e ≡ drained e')
        × PausedBy timeout_at e'
  drain_until-PausedBy zero timeout_at e clock keeps due v =
      round 0 timeout_at e due v (λ early. absurd (ground (arith, due)))
  drain_until-PausedBy (suc k) timeout_at e clock keeps due v =
      round (suc k) timeout_at e due v λ early.
        drain_until-PausedBy k timeout_at (elapse e) clock keeps (omega (arith, clock e, due))
          (keeps e v)

  -- A pause comes to its end: where 5 seconds of the other processes take 5 seconds and keep the driver
  -- counters accurate, the drain process raises nothing and does not run out of rounds. The simulation is
  -- paused at most 7200 seconds later, either with no trip active and no driver on the way home, or after
  -- just 7200 seconds with every active trip cancelled.
  pub run_drain_process-PausedBy :
      (e : Engine)
      → ((x : Engine) → (elapse x).server.now ≡ x.server.now + 5)
      → ((x : Engine)
          → IsAccurate x.server.fleet.registry
          → IsAccurate (elapse x).server.fleet.registry)
      → IsAccurate e.server.fleet.registry
      → (e' : Engine) × (run_drain_process elapse e ≡ drained e')
        × PausedBy (e.server.now + 7200) e'
  unfolding run_drain_process
  run_drain_process-PausedBy e clock keeps v =
      drain_until-PausedBy 1440 (e.server.now + 7200) e clock keeps (omega arith) v
