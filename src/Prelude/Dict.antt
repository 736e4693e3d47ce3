-- ===== src/Prelude/Dict.antt =====
-- A Python dict keyed by numbers, as an association list in insertion order.
use Prim.Native.Nat.{ℕ}
use mathlib.Core.Path.{◌≡◌, refl}
use mathlib.Core.Option.{Option, none, some}
use mathlib.Core.List.{List, [], ◌∷◌}
use native.Mathlib.Omega.{arith}
use flower_vending_system.Prelude.Tests.{◌==◌, if◌then◌else◌}

abbrev pub Dict {ℓ} : Type ℓ → Type ℓ
Dict V = List (ℕ × V)

module _ {κ} {A : Type κ} where
  -- `dict.pop(key, None)`
  abbrev pub erase : ℕ → Dict A → Dict A
  erase key [] = []
  erase key ((name, a) ∷ rest) = if key == name then rest else (name, a) ∷ erase key rest

  -- `dict[key] = new`
  abbrev pub insert : ℕ → A → Dict A → Dict A
  insert key new [] = (key, new) ∷ []
  insert key new ((name, a) ∷ rest) =
      if key == name then (key, new) ∷ rest else (name, a) ∷ insert key new rest

  -- `dict.get(key)`
  abbrev pub lookup : ℕ → Dict A → Option A
  lookup key [] = none
  lookup key ((name, a) ∷ rest) = if key == name then some a else lookup key rest

  -- `dict.get(key, default)`
  abbrev pub lookup_or : ℕ → A → Dict A → A
  lookup_or key default [] = default
  lookup_or key default ((name, a) ∷ rest) = if key == name then a else lookup_or key default rest

  pub lookup-insert :
      (other key : ℕ) (new : A) (entries : Dict A)
      → lookup other (insert key new entries)
        ≡ (if other == key then some new else lookup other entries)
  lookup-insert other key new [] = refl
  lookup-insert other key new (entry ∷ rest) = ground (arith, lookup-insert other key new rest)

  pub lookup_or-insert :
      (other key : ℕ) (new default : A) (entries : Dict A)
      → lookup_or other default (insert key new entries)
        ≡ (if other == key then new else lookup_or other default entries)
  lookup_or-insert other key new default [] = refl
  lookup_or-insert other key new default (entry ∷ rest) =
      ground (arith, lookup_or-insert other key new default rest)
