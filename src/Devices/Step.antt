-- ===== src/Devices/Step.antt =====
-- The ways to build a device's operation: what the methods of src/flower_vending/devices and
-- simulators do between their `await`s. The state stays changed after a raise.
pub mod Leads
pub mod Stays
use flower_vending_system.Prelude.{Bool, true, false}
use flower_vending_system.Devices.Errors.{Raised, Outcome, returned, raised}
use flower_vending_system.Devices.Runner.{Device}

-- A part of an operation of a device of parts `S` and results `R`, with a value of its own.
abbrev pub Step : Type 0 → Type 0 → Type 0 → Type 0
Step S R A = Device S R → Outcome A × Device S R

module _ {S R A : Type 0} where
  unfoldable pub give : A → Step S R A
  give a d = (returned a, d)

  unfoldable pub fail : Raised → Step S R A
  fail e d = (raised e, d)

  -- `if c: raise e`, before the rest.
  unfoldable pub unless : Bool → Raised → Step S R A → Step S R A
  unless true e m d = (raised e, d)
  unless false e m d = m d

abbrev pub after : {S R A B : Type 0} → Outcome A → (A → Step S R B) → Step S R B
after (returned a) f d = f a d
after (raised e) f d = (raised e, d)

infixl 5 ◌>>=◌ ◌>>◌
unfoldable pub ◌>>=◌ : {S R A B : Type 0} → Step S R A → (A → Step S R B) → Step S R B
unfolding give fail unless
◌>>=◌ m f d = let (r, d') = m d in after r f d'

abbrev pub ◌>>◌ : {S R A B : Type 0} → Step S R A → Step S R B → Step S R B
m >> k = m >>= λ _. k

-- A change of the device.
unfoldable pub update : {S R : Type 0} → (Device S R → Device S R) → Step S R (Unit {0})
update f d = (returned tt, f d)
