-- ===== src/Domain/Session.antt =====
-- domain/entities/payment_session.py. `started_at` and `expires_at`, which nothing reads, are
-- left out.
use flower_vending_system.Prelude.{ℕ, ◌+◌, Bool, true, false, List, [], ◌∷◌, ◌++◌}
use flower_vending_system.Prelude.Result.{Result, ok, err, payment_cancelled}
use flower_vending_system.Domain.Amount.{Amount, zero_amount, default_currency}

pub data SessionStatus : Type 0 where
  created accepting cancelled completed : SessionStatus

pub record PaymentSession : Type 0 where
  pub transaction_id : ℕ
  pub status : SessionStatus
  pub accepted_amount : Amount
  pub accepted_bills : List ℕ
  pub validator_enabled : Bool
  pub cancel_requested : Bool

abbrev pub new_session : ℕ → PaymentSession
new_session tid = record {
  transaction_id = tid;
  status = created;
  accepted_amount = zero_amount default_currency;
  accepted_bills = [];
  validator_enabled = false;
  cancel_requested = false;
}

abbrev pub start_acceptance : PaymentSession → PaymentSession
start_acceptance s = record s { status = accepting; validator_enabled = true }

abbrev add_bill : ℕ → PaymentSession → PaymentSession
add_bill bill s = record s {
  accepted_bills = s.accepted_bills ++ (bill ∷ []);
  accepted_amount = record {
    minor_units = s.accepted_amount.minor_units + bill;
    currency = s.accepted_amount.currency;
  };
}

abbrev when_not_cancelled : SessionStatus → PaymentSession → Result PaymentSession
when_not_cancelled cancelled s = err payment_cancelled
when_not_cancelled _ s = ok s

abbrev pub add_stacked_bill : ℕ → PaymentSession → Result PaymentSession
add_stacked_bill bill s = when_not_cancelled s.status (add_bill bill s)

abbrev pub cancel_session : PaymentSession → PaymentSession
cancel_session s = record s {
  status = cancelled;
  cancel_requested = true;
  validator_enabled = false;
}

abbrev pub complete_session : PaymentSession → PaymentSession
complete_session s = record s { status = completed; validator_enabled = false }
