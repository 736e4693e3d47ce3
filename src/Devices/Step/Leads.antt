-- ===== src/Devices/Step/Leads.antt =====
-- How a step of a device ends: rules for the ways in which Devices/Step builds one.
use flower_vending_system.Prelude.{Bool, true, false, ◌≡◌, refl}
use flower_vending_system.Devices.Errors.{Raised, Outcome, returned, raised}
use flower_vending_system.Devices.Runner.{Device}
use flower_vending_system.Devices.Step.{Step, give, unless, after, ◌>>=◌, update}

module _ {S R A : Type 0} where
  abbrev pub Post :
      (A → Device S R → Type 0) → (Raised → Device S R → Type 0) → Outcome A × Device S R → Type 0
  Post Q E (returned a, d) = Q a d
  Post Q E (raised e, d) = E e d

  -- From `d`, the step returns a value and a device in `Q`, or raises with a device in `E`.
  pub record Leads (m : Step S R A) (Q : A → Device S R → Type 0) (E : Raised → Device S R → Type 0)
      (d : Device S R) : Type 0 where
    pub post : Post Q E (m d)

module _ {S R A : Type 0} {Q : A → Device S R → Type 0} {E : Raised → Device S R → Type 0} where
  pub Leads-give : (a : A) (d : Device S R) → Q a d → Leads (give a) Q E d
  unfolding give
  Leads-give a d h = record { post = h }

  pub Leads-bind :
      {B : Type 0} (m : Step S R B) (f : B → Step S R A) (d : Device S R)
      → Leads m (λ b. Leads (f b) Q E) E d
      → Leads (m >>= f) Q E d
  unfolding ◌>>=◌
  Leads-bind {B} m f d h = record { post = then_run (m d) h.post }
    where
      then_run :
          (o : Outcome B × Device S R)
          → Post (λ b. Leads (f b) Q E) E o
          → Post Q E (after o.0 f o.1)
      then_run (returned b, d') k = k.post
      then_run (raised e, d') k = k

  pub Leads-unless :
      (c : Bool) (e : Raised) (m : Step S R A) (d : Device S R)
      → (c ≡ false → Leads m Q E d)
      → (c ≡ true → E e d)
      → Leads (unless c e m) Q E d
  unfolding unless
  Leads-unless true e m d h k = record { post = k refl }
  Leads-unless false e m d h k = record { post = (h refl).post }

  pub Leads-map :
      {P : A → Device S R → Type 0} {F : Raised → Device S R → Type 0} (m : Step S R A)
      (d : Device S R)
      → ((a : A) (d' : Device S R) → P a d' → Q a d')
      → ((e : Raised) (d' : Device S R) → F e d' → E e d')
      → Leads m P F d
      → Leads m Q E d
  Leads-map {P} {F} m d f g h = record { post = weaken (m d) h.post }
    where
      weaken : (o : Outcome A × Device S R) → Post P F o → Post Q E o
      weaken (returned a, d') k = f a d' k
      weaken (raised e, d') k = g e d' k

pub Leads-update :
    {S R : Type 0} {Q : Unit {0} → Device S R → Type 0} {E : Raised → Device S R → Type 0}
    (f : Device S R → Device S R) (d : Device S R)
    → Q tt (f d)
    → Leads (update f) Q E d
unfolding update
Leads-update f d h = record { post = h }
