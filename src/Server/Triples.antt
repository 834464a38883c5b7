-- ===== src/Server/Triples.antt =====
-- What holds after a method, whether it returned or raised, and how that composes in a block.
use rideshare_simulation_pla.Prelude.{◌≡◌, Bool, true, false, if◌then◌else◌}
use rideshare_simulation_pla.Server.Puppets.{when}
use rideshare_simulation_pla.Server.{Server, M, Outcome, Error, done, raised, ◌>>=◌}

abbrev pub Holds :
    {A : Type 0} → (Error → Server → Type 0) → (A → Server → Type 0) → Outcome A → Type 0
Holds E Q (done a w) = Q a w
Holds E Q (raised e w) = E e w

-- The result and the state, or the exception and the state, are as they should be.
pub record Post {A : Type 0} (E : Error → Server → Type 0) (Q : A → Server → Type 0) (x : Outcome A)
    : Type 0 where
  pub holds : Holds E Q x

pub returned :
    {A : Type 0} {E : Error → Server → Type 0} {Q : A → Server → Type 0} (x : Outcome A) {a : A}
    {v : Server}
    → x ≡ done a v
    → Q a v
    → Post E Q x
returned {E = E} {Q} x e q = rw e (record { holds = q })

-- What holds after a step and then after the rest holds after both.
pub bind-Post :
    {A B : Type 0} {E : Error → Server → Type 0} {Q : A → Server → Type 0} {R : B → Server → Type 0}
    (m : M A) (f : A → M B) (w : Server)
    → Post E Q (m w)
    → ((a : A) (v : Server) → Q a v → Post E R (f a v))
    → Post E R ((m >>= f) w)
bind-Post {A = A} {B} {E} {Q} {R} m f w p k = go (m w) p.holds
  where
    go :
        (x : Outcome A)
        → Holds E Q x
        → Post E R (elim x [ done a v ↦ f a v | raised e v ↦ raised e v ])
    go (done a v) h = k a v h
    go (raised e v) h = record { holds = h }

-- A weaker condition.
pub Post-weaken :
    {A : Type 0} {E : Error → Server → Type 0} {Q R : A → Server → Type 0} (x : Outcome A)
    → Post E Q x
    → ((a : A) (v : Server) → Q a v → R a v)
    → Post E R x
Post-weaken {A = A} {E} {Q} {R} x p k = record { holds = go x p.holds }
  where
    go : (y : Outcome A) → Holds E Q y → Holds E R y
    go (done a v) h = k a v h
    go (raised e v) h = h

-- Either branch of a test.
pub if-Post :
    {A : Type 0} {E : Error → Server → Type 0} {Q : A → Server → Type 0} (b : Bool) (m k : M A)
    (w : Server)
    → Post E Q (m w)
    → Post E Q (k w)
    → Post E Q ((if b then m else k) w)
if-Post true m k w p q = p
if-Post false m k w p q = q

pub when-Post :
    {E : Error → Server → Type 0} {Q : Unit {0} → Server → Type 0} (b : Bool) (m : M (Unit {0}))
    (w : Server)
    → Post E Q (m w)
    → Q tt w
    → Post E Q (when b m w)
when-Post true m w p q = p
when-Post false m w p q = record { holds = q }
