-- ===== src/Persistence/Store/Projection.antt =====
-- What is in the store after an event: RuntimePersistenceProjector of runtime/bootstrap.py.
use flower_vending_system.Prelude.{
  ℕ, true, Option, none, some, [], ◌∷◌, ◌≡◌, refl, arith, ◌==◌, inl, inr, Bool-cases, ==_iff, ◌∙◌,
  sym, ap,
}
use flower_vending_system.Prelude.Dict.{Dict, lookup}
use flower_vending_system.Prelude.Result.{ok, map_ok}
use flower_vending_system.Domain.Transaction.{Transaction}
use flower_vending_system.App.World.{World}
use flower_vending_system.App.Services.{active, find_active, is_unresolved, unresolved}
use flower_vending_system.App.Startup.{keyed}
use flower_vending_system.Persistence.Mappers.{transaction_to_record}
use flower_vending_system.Persistence.Mappers.RoundTrip.{
  IsStorable, as_stored, transaction_round_trip,
}
use flower_vending_system.Persistence.Store.{
  Store, get_transaction, or_else, primary_dict, event_transaction, handle_domain_event,
}
use flower_vending_system.Persistence.Store.Saved.{
  Agrees, Agrees-keyed, unresolved-AllIn, keyed-finds, unresolved-Listed, save_transactions-keeps,
}

-- An optional transaction that the registry has under its identifier.
abbrev Found : Dict Transaction → Option Transaction → Type 0
Found registry none = Unit {0}
Found registry (some t) = lookup t.transaction_id registry ≡ some t

Agrees-primary_dict :
    (registry : Dict Transaction) (o : Option Transaction)
    → Found registry o
    → Agrees registry (primary_dict o)
Agrees-primary_dict registry none f = tt
Agrees-primary_dict registry (some t) f = (f, refl, tt)

named :
    (registry d : Dict Transaction) (k : ℕ) (t : Transaction)
    → Agrees registry d
    → lookup k d ≡ some t
    → t.transaction_id ≡ k
named registry [] k t a f = cc
named registry ((j, u) ∷ d) k t a f = elim (Bool-cases (k == j)) [
  | inl e ↦
      let same : u ≡ t = ground (arith, e, f) in
      ap (λ (x : Transaction). x.transaction_id) (sym same) ∙ (a.1 ∙ sym ((==_iff k j).0 e))
  | inr e ↦ named registry d k t a.2 (rw e at f)
]

module _ (registry : Dict Transaction) (a : Agrees registry registry) where
  looked_up : (k : ℕ) (o : Option Transaction) → lookup k registry ≡ o → Found registry o
  looked_up k none e = tt
  looked_up k (some t) e = ap (λ i. lookup i registry) (named registry registry k t a e) ∙ e

  Found-find_active : (o : Option ℕ) → Found registry (find_active o registry)
  Found-find_active none = tt
  Found-find_active (some tid) = looked_up tid (lookup tid registry) refl

  Found-or_else :
      (x y : Option Transaction)
      → Found registry x
      → Found registry y
      → Found registry (or_else x y)
  Found-or_else none y f g = g
  Found-or_else (some t) y f g = f

Found-event_transaction :
    (tid : Option ℕ) (w : World)
    → Agrees w.transactions w.transactions
    → Found w.transactions (event_transaction tid w)
unfolding active
Found-event_transaction none w a = Found-find_active w.transactions a w.active_id
Found-event_transaction (some tid) w a =
    looked_up w.transactions a tid (lookup tid w.transactions) refl

handle_domain_event-row :
    (machine_id : ℕ) (tid : Option ℕ) (w : World) (s : Store) (k : ℕ) (t : Transaction)
    → Agrees w.transactions w.transactions
    → lookup k w.transactions ≡ some t
    → is_unresolved t ≡ true
    → lookup k (handle_domain_event machine_id tid w s).transactions
      ≡ some (transaction_to_record t)
unfolding handle_domain_event active
handle_domain_event-row machine_id tid w s k t a here o =
    let primary = or_else (event_transaction tid w) (active w) in
    let all = unresolved-AllIn w.transactions w.transactions a in
    let first = Agrees-primary_dict w.transactions primary (
      Found-or_else w.transactions a (event_transaction tid w) (active w)
        (Found-event_transaction tid w a) (Found-find_active w.transactions a w.active_id)) in
    save_transactions-keeps w.transactions k t here
      (keyed (unresolved w.transactions) (primary_dict primary)) s
      (Agrees-keyed w.transactions (unresolved w.transactions) (primary_dict primary) all first)
      (inl (
        keyed-finds w.transactions k t here (unresolved w.transactions) (primary_dict primary)
          (named w.transactions w.transactions k t a here) all
          (unresolved-Listed w.transactions k t here w.transactions o here)))

-- The store after an event has the row of every open transaction of the registry as it is now, and
-- reading it back gives the transaction; the registry lists each transaction once, under its
-- identifier, and the transaction's identifiers and currencies are not blank.
pub handle_domain_event-stores :
    (machine_id : ℕ) (tid : Option ℕ) (w : World) (s : Store) (k : ℕ) (t : Transaction)
    → Agrees w.transactions w.transactions
    → lookup k w.transactions ≡ some t
    → is_unresolved t ≡ true
    → IsStorable t
    → get_transaction k (handle_domain_event machine_id tid w s) ≡ ok (some (as_stored t))
unfolding get_transaction
handle_domain_event-stores machine_id tid w s k t a here o v =
    rw (handle_domain_event-row machine_id tid w s k t a here o)
      (ap (map_ok some) (transaction_round_trip t v))
