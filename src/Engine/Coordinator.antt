-- ===== src/Engine/Coordinator.antt =====
-- services/simulation/src/engine/thread_coordinator.py: the commands of the API's thread, which the simulation's
-- thread answers. A payload is a token; a handler is a parameter, which works on a state and may raise.
use rideshare_simulation_pla.Prelude.{
  ℕ, ◌+◌, ◌≡◌, refl, ap, sym, length-append, ◌∙◌, Bool, true, false, Option, none, some, List, [],
  ◌∷◌, ◌++◌, append_assoc, append-nil, Result, ok, err, length, arith, if◌then◌else◌,
}

pub data CommandType : Type 0 where
  pause resume reset set_speed add_drivers add_riders add_puppet puppet_action get_snapshot
        shutdown :
      CommandType

pub data CommandError : Type 0 where
  no_handler_registered : CommandType → CommandError
  handler_error : ℕ → CommandError
  shut_down timed_out : CommandError

pub record Command : Type 0 where
  pub type : CommandType
  pub payload : ℕ
  pub responded : Bool
  pub result : Option ℕ
  pub error : Option CommandError

-- `answered` keeps the commands that were taken off the queue, which their senders wait for.
pub record Coordinator : Type 0 where
  pub queue : List Command
  pub answered : List Command
  pub is_shutdown : Bool

abbrev pub fresh : CommandType → ℕ → Command
fresh type payload = record {
  type = type;
  payload = payload;
  responded = false;
  result = none;
  error = none;
}

-- The first half of `send_command`, up to the wait.
unfoldable pub submit : CommandType → ℕ → Coordinator → Result CommandError Coordinator
submit type payload c =
    if c.is_shutdown
    then err shut_down
    else ok (record c { queue = c.queue ++ fresh type payload ∷ [] })

-- The second half: the event, or the end of the wait.
unfoldable pub collect : Command → Result CommandError (Option ℕ)
collect cmd =
    if cmd.responded
    then elim cmd.error [ none ↦ ok cmd.result | some x ↦ err x ]
    else err timed_out

unfoldable pub shut : Coordinator → Coordinator
shut c = record c { is_shutdown = true }

-- The handlers: what is registered for a type. A handler reads and changes the state of the simulation,
-- and returns or raises; what it had changed when it raises stays.
module _ {S : Type 0} (handlers : CommandType → Option (ℕ → S → Result ℕ ℕ × S)) where
  abbrev handled : Command → Result ℕ ℕ → Command
  handled cmd (ok v) = record cmd { result = some v; responded = true }
  handled cmd (err x) = record cmd { error = some (handler_error x); responded = true }

  unfoldable pub respond : Command → S → Command × S
  respond cmd s = elim (handlers cmd.type) [
    | none ↦ (record cmd { error = some (no_handler_registered cmd.type); responded = true }, s)
    | some h ↦ (handled cmd (h cmd.payload s).0, (h cmd.payload s).1)
  ]

  -- The loop over what `get_nowait` yields.
  unfoldable pub process : List Command → ℕ → Coordinator → S → ℕ × Coordinator × S
  unfolding respond
  process [] count c s = (count, record c { queue = [] }, s)
  process (cmd ∷ q) count c s =
      let answer = respond cmd s in
      process q (count + 1) (record c { queue = q; answered = c.answered ++ answer.0 ∷ [] })
        answer.1

  unfoldable pub process_pending_commands : Coordinator → S → ℕ × Coordinator × S
  unfolding process
  process_pending_commands c s = process c.queue 0 c s

  -- The state when the handlers of these commands have run in turn.
  abbrev pub after : List Command → S → S
  after [] s = s
  after (cmd ∷ q) s = after q (respond cmd s).1

  -- Each command as it is answered, in the state that those before it leave.
  abbrev pub answers : List Command → S → List Command
  answers [] s = []
  answers (cmd ∷ q) s = (respond cmd s).0 ∷ answers q (respond cmd s).1

  after-append :
      (xs : List Command) (y : Command) (s : S)
      → after (xs ++ y ∷ []) s ≡ (respond y (after xs s)).1
  after-append [] y s = refl
  after-append (x ∷ xs) y s = after-append xs y (respond x s).1

  answers-append :
      (xs : List Command) (y : Command) (s : S)
      → answers (xs ++ y ∷ []) s ≡ answers xs s ++ (respond y (after xs s)).0 ∷ []
  answers-append [] y s = refl
  answers-append (x ∷ xs) y s = ap (◌∷◌ (respond x s).0) (answers-append xs y (respond x s).1)

  same :
      (c : Coordinator) {k m : ℕ} {xs ys : List Command} {a b : S}
      → k ≡ m
      → xs ≡ ys
      → a ≡ b
      → ◌≡◌ {A = ℕ × Coordinator × S}
          (k, record c { queue = []; answered = xs }, a)
          (m, record c { queue = []; answered = ys }, b)
  same c e f g = rw (e, f, g) refl

  process_lem :
      (q : List Command) (n : ℕ) (c : Coordinator) (s : S)
      → process q n c s
        ≡ (n + length q, record c { queue = []; answered = c.answered ++ answers q s }, after q s)
  unfolding process
  process_lem [] n c s = same c (omega arith) (sym (append-nil c.answered)) refl
  process_lem (cmd ∷ q) n c s =
      let answer = respond cmd s in
      process_lem q (n + 1) (record c { queue = q; answered = c.answered ++ answer.0 ∷ [] })
        answer.1
      ∙ same c (omega arith) (append_assoc c.answered (answer.0 ∷ []) (answers q answer.1)) refl

  -- A handler that is called without the queue.
  abbrev called : Result ℕ ℕ → Result CommandError (Option ℕ)
  called (ok v) = ok (some v)
  called (err x) = err (handler_error x)

  abbrev pub direct : CommandType → ℕ → S → Result CommandError (Option ℕ) × S
  direct type payload s = elim (handlers type) [
    | none ↦ (err (no_handler_registered type), s)
    | some h ↦ (called (h payload s).0, (h payload s).1)
  ]

  collect-handled :
      (type : CommandType) (payload : ℕ) (r : Result ℕ ℕ)
      → collect (handled (fresh type payload) r) ≡ called r
  unfolding collect
  collect-handled type payload (ok v) = refl
  collect-handled type payload (err x) = refl

  collect-respond :
      (type : CommandType) (payload : ℕ) (s : S)
      → (let answer = respond (fresh type payload) s in (collect answer.0, answer.1))
        ≡ direct type payload s
  unfolding collect respond
  collect-respond type payload s = go (handlers type) refl
    where
      responded_by :
          (h : ℕ → S → Result ℕ ℕ × S)
          → handlers type ≡ some h
          → respond (fresh type payload) s
            ≡ (handled (fresh type payload) (h payload s).0, (h payload s).1)
      responded_by h e = rw (e, respond) refl

      go :
          (o : Option (ℕ → S → Result ℕ ℕ × S))
          → handlers type ≡ o
          → (let answer = respond (fresh type payload) s in (collect answer.0, answer.1))
            ≡ direct type payload s
      go none e = rw (e, respond, direct) refl
      go (some h) e =
          ap (λ (a : Command × S). (collect a.0, a.1)) (responded_by h e)
          ∙ ap (λ x. (x, (h payload s).1)) (collect-handled type payload (h payload s).0)
          ∙ rw (e, direct) refl

  -- A command that is sent before the shutdown is queued behind the others. One round of the simulation's
  -- thread runs the handlers of all of them in the order in which they were sent, each in the state that
  -- those before it left and this one last, counts them, answers all and leaves the queue empty. What
  -- the sender then gets, a result or an exception, and the state that is left, are what the registered
  -- handler gives when it is called directly in the state that the other commands leave.
  pub process_pending_commands_lem :
      (type : CommandType) (payload : ℕ) (c : Coordinator) (s : S)
      → c.is_shutdown ≡ false
      → (c' : Coordinator) × (submit type payload c ≡ ok c')
        × (let answer = respond (fresh type payload) (after c.queue s) in
            (process_pending_commands c' s ≡ (
              length c.queue + 1,
              record c {
                queue = [];
                answered = c.answered ++ (answers c.queue s ++ answer.0 ∷ []);
              },
              answer.1,
            ))
            × ((collect answer.0, answer.1) ≡ direct type payload (after c.queue s)))
  unfolding submit process_pending_commands
  process_pending_commands_lem type payload c s h =
      let queued = record c { queue = c.queue ++ fresh type payload ∷ [] } in
      (
        queued,
        ground (arith, h),
        (
          process_lem queued.queue 0 queued s
              ∙ same c (omega (arith, length-append c.queue (fresh type payload ∷ [])))
                  (ap (λ xs. c.answered ++ xs) (answers-append c.queue (fresh type payload) s))
                  (after-append c.queue (fresh type payload) s),
          collect-respond type payload (after c.queue s),
        ),
      )
