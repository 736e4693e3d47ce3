-- ===== src/Domain/Reserve.antt =====
-- domain/entities/change_reserve.py. The timestamps, which nothing reads, are left out.
use flower_vending_system.Prelude.{ℕ, ◌+◌, ◌*◌, [], ◌∷◌}
use flower_vending_system.Prelude.Dict.{Dict}
use flower_vending_system.Domain.Amount.{Amount}

-- Counts by denomination.
abbrev pub Plan : Type 0
Plan = Dict ℕ

pub data ReserveStatus : Type 0 where
  active released consumed ambiguous : ReserveStatus

pub record ChangeReserve : Type 0 where
  pub transaction_id : ℕ
  pub counts : Plan
  pub currency : ℕ
  pub status : ReserveStatus

-- `sum(denomination * count ...)`
unfoldable pub plan_total : Plan → ℕ
plan_total [] = 0
plan_total ((d, c) ∷ p) = d * c + plan_total p

abbrev pub reserved_total : ChangeReserve → Amount
reserved_total r = record { minor_units = plan_total r.counts; currency = r.currency }

abbrev pub release_reserve : ChangeReserve → ChangeReserve
release_reserve r = record r { status = released }

abbrev pub consume_reserve : ChangeReserve → ChangeReserve
consume_reserve r = record r { status = consumed }

abbrev pub mark_reserve_ambiguous : ChangeReserve → ChangeReserve
mark_reserve_ambiguous r = record r { status = ambiguous }
