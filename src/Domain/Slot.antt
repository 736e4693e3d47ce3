-- ===== src/Domain/Slot.antt =====
-- domain/entities/slot.py and product.py: the fields that the services read.
use flower_vending_system.Prelude.{ℕ, Bool, not}
use flower_vending_system.Prelude.Int.{ℤ, pos, ◌-ℤ◌, leb_ℤ}
use flower_vending_system.Prelude.Result.{
  Result, ok, raise_when, slot_unavailable, product_unavailable,
}

pub record Slot : Type 0 where
  pub slot_id : ℕ
  pub product_id : ℕ
  pub capacity : ℤ
  pub quantity : ℤ
  pub is_enabled : Bool

pub record Product : Type 0 where
  pub product_id : ℕ
  pub enabled : Bool

abbrev pub ensure_sellable {ℓ} : {A : Type ℓ} → Slot → Result A → Result A
ensure_sellable s r =
    raise_when (not s.is_enabled) slot_unavailable
      (raise_when (leb_ℤ s.quantity (pos 0)) product_unavailable r)

unfoldable pub decrement : Slot → Result Slot
decrement s = ensure_sellable s (ok (record s { quantity = s.quantity -ℤ pos 1 }))
