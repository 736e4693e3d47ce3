-- ===== src/App/Registry.antt =====
-- The registry of app/orchestrators/transaction_coordinator.py: each transaction stands once, under
-- its own identifier.
use flower_vending_system.Prelude.{
  ℕ, Bool, true, false, Option, none, some, List, [], ◌∷◌, ◌≡◌, refl, ap, sym, ◌∙◌, inl, inr, arith,
  ◌==◌, ==_iff, Bool-cases,
}
use flower_vending_system.Prelude.Dict.{Dict, lookup, insert, lookup-insert}
use flower_vending_system.Prelude.Int.{ℤ}
use flower_vending_system.Prelude.Result.{Result, ok, err, map_ok}
use flower_vending_system.Domain.Amount.{lt_amount}
use flower_vending_system.Domain.Session.{PaymentSession, add_stacked_bill}
use flower_vending_system.Domain.Transaction.{
  Transaction, authorize_vend, confirm_payment, confirm_unless_short, record_stacked_cash,
  stack_into, with_session,
}
use flower_vending_system.App.Services.{by_id, make_transaction}

abbrev pub IsKeyed : Dict Transaction → Type 0
IsKeyed [] = Unit {0}
IsKeyed ((k, t) ∷ d) = (t.transaction_id ≡ k) × (lookup k d ≡ none) × IsKeyed d

-- A method that leaves its transaction's identifier alone, and one that may raise.
abbrev pub SameId : (Transaction → Transaction) → Type 0
SameId f = (t : Transaction) → (f t).transaction_id ≡ t.transaction_id

abbrev pub SameIdOr : (Transaction → Result Transaction) → Type 0
SameIdOr f = (t t' : Transaction) → f t ≡ ok t' → t'.transaction_id ≡ t.transaction_id

lookup-other :
    (j k : ℕ) (t : Transaction) (d : Dict Transaction)
    → (j == k) ≡ false
    → lookup j d ≡ none
    → lookup j (insert k t d) ≡ none
lookup-other j k t d e h = rw (lookup-insert j k t d, e) h

flipped : (j k : ℕ) → (j == k) ≡ false → (k == j) ≡ false
flipped j k h = ground arith

pub insert-IsKeyed :
    (t : Transaction) (k : ℕ) (d : Dict Transaction)
    → t.transaction_id ≡ k
    → IsKeyed d
    → IsKeyed (insert k t d)
insert-IsKeyed t k [] e h = (e, refl, tt)
insert-IsKeyed t k ((j, u) ∷ d) e h = elim (Bool-cases (k == j)) [
  | inl s ↦ rw s (e, ap (λ i. lookup i d) ((==_iff k j).0 s) ∙ h.1, h.2)
  | inr n ↦ rw n (h.0, lookup-other j k t d (flipped k j n) h.1, insert-IsKeyed t k d e h.2)
]

pub lookup-IsKeyed :
    (k : ℕ) (t : Transaction) (d : Dict Transaction)
    → lookup k d ≡ some t
    → IsKeyed d
    → t.transaction_id ≡ k
lookup-IsKeyed k t [] e h = cc
lookup-IsKeyed k t ((j, u) ∷ d) e h = elim (Bool-cases (k == j)) [
  | inl s ↦ ground (arith, (==_iff k j).0 s, h.0, rw s at e)
  | inr n ↦ lookup-IsKeyed k t d (rw n at e) h.2
]

pub by_id-IsKeyed :
    (ts : List Transaction) (d : Dict Transaction) → IsKeyed d → IsKeyed (by_id ts d)
unfolding by_id
by_id-IsKeyed [] d h = h
by_id-IsKeyed (t ∷ ts) d h = by_id-IsKeyed ts _ (insert-IsKeyed t t.transaction_id d refl h)

-- A transaction of the registry is written back under its key.
pub store-IsKeyed :
    (k : ℕ) (t t' : Transaction) (d : Dict Transaction)
    → lookup k d ≡ some t
    → t'.transaction_id ≡ t.transaction_id
    → IsKeyed d
    → IsKeyed (insert k t' d)
store-IsKeyed k t t' d e same h = insert-IsKeyed t' k d (same ∙ lookup-IsKeyed k t d e h) h

id_of : Transaction → Result Transaction → ℕ
id_of t (ok t') = t'.transaction_id
id_of t (err e) = t.transaction_id

-- A result that, where it is one, has the identifier of `t`.
ok_id :
    (t t' : Transaction) (r : Result Transaction)
    → id_of t r ≡ t.transaction_id
    → r ≡ ok t'
    → t'.transaction_id ≡ t.transaction_id
unfolding id_of
ok_id t t' (ok u) h e = sym (ap (id_of t) e) ∙ h
ok_id t t' (err x) h e = cc

pub authorize_vend-SameIdOr : (at : ℕ) → SameIdOr (authorize_vend at)
unfolding authorize_vend
authorize_vend-SameIdOr at t t' e = ground (arith, e)

pub confirm_payment-SameIdOr : (at : ℕ) → SameIdOr (confirm_payment at)
unfolding confirm_payment id_of
confirm_payment-SameIdOr at t t' e = ok_id t t' _ (checked (lt_amount t.accepted_amount t.price)) e
  where
    checked : (r : Result Bool) → id_of t (confirm_unless_short r at t) ≡ t.transaction_id
    checked (err x) = refl
    checked (ok true) = refl
    checked (ok false) = refl

pub record_stacked_cash-SameIdOr : (bill at : ℕ) → SameIdOr (record_stacked_cash bill at)
unfolding record_stacked_cash id_of
record_stacked_cash-SameIdOr bill at t t' e = ok_id t t' _ (stacked t.payment_session) e
  where
    added :
        (r : Result PaymentSession)
        → id_of t (map_ok (λ s. with_session s at t) r) ≡ t.transaction_id
    added (err x) = refl
    added (ok s) = refl

    stacked : (o : Option PaymentSession) → id_of t (stack_into o bill at t) ≡ t.transaction_id
    stacked none = refl
    stacked (some s) = added (add_stacked_bill bill s)

pub make_transaction-id :
    (tid cid pid sid : ℕ) (price : ℤ) (currency at : ℕ) (t : Transaction)
    → make_transaction tid cid pid sid price currency at ≡ ok t
    → t.transaction_id ≡ tid
unfolding make_transaction
make_transaction-id tid cid pid sid price currency at t e = ground (arith, e)
