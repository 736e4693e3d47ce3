-- ===== src/Persistence/Store/Durable.antt =====
-- RuntimePersistenceProjector of runtime/bootstrap.py behind the machine's commands.
use flower_vending_system.Prelude.{
  ℕ, true, Option, none, some, List, [], ◌∷◌, ◌≡◌, refl, inl, inr, ◌==◌, ==_iff, Bool-cases, ap,
  arith,
}
use flower_vending_system.Prelude.Dict.{Dict, lookup}
use flower_vending_system.Prelude.Result.{ok}
use flower_vending_system.Domain.Transaction.{Transaction}
use flower_vending_system.App.World.{World}
use flower_vending_system.App.Services.{is_unresolved}
use flower_vending_system.App.Registry.{IsKeyed}
use flower_vending_system.App.Machine.{Command, Settings, run}
use flower_vending_system.App.Machine.Registered.{run-IsKeyed}
use flower_vending_system.Persistence.Mappers.RoundTrip.{IsStorable, as_stored}
use flower_vending_system.Persistence.Store.{Store, get_transaction, handle_domain_event}
use flower_vending_system.Persistence.Store.Saved.{Agrees}
use flower_vending_system.Persistence.Store.Projection.{handle_domain_event-stores}

head_lookup : (k : ℕ) (t : Transaction) (d : Dict Transaction) → lookup k ((k, t) ∷ d) ≡ some t
head_lookup k t d = rw ((==_iff k k).1 refl) refl

-- What the rest of a registry has, the registry has.
tail_lookup :
    (j k : ℕ) (t u : Transaction) (d : Dict Transaction)
    → lookup k d ≡ none
    → lookup j d ≡ some u
    → lookup j ((k, t) ∷ d) ≡ some u
tail_lookup j k t u d fresh e = elim (Bool-cases (j == k)) [
  | inl s ↦ ground (arith, ap (λ i. lookup i d) ((==_iff j k).0 s), fresh, e)
  | inr n ↦ rw n e
]

IsKeyed-Agrees :
    (registry d : Dict Transaction)
    → IsKeyed d
    → ((j : ℕ) (u : Transaction) → lookup j d ≡ some u → lookup j registry ≡ some u)
    → Agrees registry d
IsKeyed-Agrees registry [] h f = tt
IsKeyed-Agrees registry ((k, t) ∷ d) h f = (
  f k t (head_lookup k t d),
  h.0,
  IsKeyed-Agrees registry d h.2 (λ j u e. f j u (tail_lookup j k t u d h.1 e)),
)

-- After any commands to a machine whose registry has each transaction once, under its identifier, a
-- domain event leaves the store with every transaction that is open then, as it is then: reading it
-- back gives that transaction, but with all its amounts in the currency of its price and its
-- reserved counts sorted by denomination; its identifiers and currencies are not blank. A
-- transaction whose price is not in RUB has zero amounts in RUB at first, which come back in the
-- price's currency.
pub run-stores :
    (settings : Settings) (cs : List Command) (start : World) (machine_id : ℕ) (tid : Option ℕ)
    (s : Store) (k : ℕ) (t : Transaction)
    → IsKeyed start.transactions
    → lookup k (run settings cs start).transactions ≡ some t
    → is_unresolved t ≡ true
    → IsStorable t
    → get_transaction k (handle_domain_event machine_id tid (run settings cs start) s)
      ≡ ok (some (as_stored t))
run-stores settings cs start machine_id tid s k t keyed here open_still v =
    handle_domain_event-stores machine_id tid (run settings cs start) s k t
      (IsKeyed-Agrees _ _ (run-IsKeyed settings cs start keyed) (λ j u e. e)) here open_still v
