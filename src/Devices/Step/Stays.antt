-- ===== src/Devices/Step/Stays.antt =====
-- A property of the device that every part of a step keeps, for the methods of
-- src/flower_vending/devices that Devices/Step builds.
use flower_vending_system.Devices.Errors.{Outcome, returned, raised}
use flower_vending_system.Devices.Runner.{Device}
use flower_vending_system.Devices.Step.{Step, ◌>>=◌, update, after}

module _ {S R : Type 0} (I : Device S R → Type 0) where
  -- The step keeps `I`, whether it returns or raises.
  abbrev pub Stays : {A : Type 0} → Step S R A → Type 0
  Stays m = (d : Device S R) → I d → I (m d).1

module _ {S R : Type 0} {I : Device S R → Type 0} where
  pub Stays-bind :
      {A B : Type 0} (m : Step S R A) (f : A → Step S R B)
      → Stays I m
      → ((a : A) → Stays I (f a))
      → Stays I (m >>= f)
  unfolding ◌>>=◌
  Stays-bind {A} m f h k d i = next (m d).0 (m d).1 (h d i)
    where
      next : (o : Outcome A) (d' : Device S R) → I d' → I (after o f d').1
      next (returned a) d' j = k a d' j
      next (raised e) d' j = j

  pub Stays-update :
      (f : Device S R → Device S R) → ((d : Device S R) → I d → I (f d)) → Stays I (update f)
  unfolding update
  Stays-update f h = h
