-- ===== src/Persistence/Store/Saved.antt =====
-- The lists that RuntimePersistenceProjector of runtime/bootstrap.py saves, and the rows after it.
use flower_vending_system.Prelude.{
  ℕ, true, false, some, List, [], ◌∷◌, ◌≡◌, refl, arith, ◌==◌, ◌⊎◌, inl, inr, Bool-cases, ==_iff,
  ◌∙◌, ap,
}
use flower_vending_system.Prelude.Dict.{Dict, lookup, insert, lookup-insert}
use flower_vending_system.Domain.Transaction.{Transaction}
use flower_vending_system.App.Services.{is_unresolved, unresolved}
use flower_vending_system.App.Startup.{keyed, values}
use flower_vending_system.Persistence.Mappers.{transaction_to_record}
use flower_vending_system.Persistence.Store.{Store, save_transaction, save_transactions}

-- Every transaction of `d` is the one of the registry under its key, which is its identifier.
abbrev pub Agrees : Dict Transaction → Dict Transaction → Type 0
Agrees registry [] = Unit {0}
Agrees registry ((k, t) ∷ d) =
    (lookup k registry ≡ some t) × (t.transaction_id ≡ k) × Agrees registry d

abbrev pub AllIn : Dict Transaction → List Transaction → Type 0
AllIn registry [] = Unit {0}
AllIn registry (t ∷ ts) = (lookup t.transaction_id registry ≡ some t) × AllIn registry ts

abbrev Holds : Dict Transaction → ℕ → Transaction → Type 0
Holds registry k t = lookup k registry ≡ some t

module _ (registry : Dict Transaction) where
  Agrees-insert :
      (t : Transaction) (d : Dict Transaction)
      → lookup t.transaction_id registry ≡ some t
      → Agrees registry d
      → Agrees registry (insert t.transaction_id t d)
  Agrees-insert t [] h a = (h, refl, tt)
  Agrees-insert t ((j, u) ∷ d) h a = elim (Bool-cases (t.transaction_id == j)) [
    | inl e ↦ rw e (h, refl, a.2)
    | inr e ↦ rw e (a.0, a.1, Agrees-insert t d h a.2)
  ]

  pub Agrees-keyed :
      (ts : List Transaction) (d : Dict Transaction)
      → AllIn registry ts
      → Agrees registry d
      → Agrees registry (keyed ts d)
  unfolding keyed
  Agrees-keyed [] d h a = a
  Agrees-keyed (t ∷ ts) d h a =
      Agrees-keyed ts (insert t.transaction_id t d) h.1 (Agrees-insert t d h.0 a)

  pub unresolved-AllIn : (d : Dict Transaction) → Agrees registry d → AllIn registry (unresolved d)
  unfolding unresolved
  unresolved-AllIn [] a = tt
  unresolved-AllIn ((k, t) ∷ d) a = elim (Bool-cases (is_unresolved t)) [
    | inl e ↦ rw e (ap (λ i. lookup i registry) a.1 ∙ a.0, unresolved-AllIn d a.2)
    | inr e ↦ rw e (unresolved-AllIn d a.2)
  ]

  -- The registry's entry under `k`.
  module _ (k : ℕ) (t : Transaction) (here : lookup k registry ≡ some t) where
    same_entry :
        (u : Transaction)
        → (k == u.transaction_id) ≡ true
        → lookup u.transaction_id registry ≡ some u
        → u ≡ t
    same_entry u e h = ground (arith, (==_iff k u.transaction_id).0 e)

    keyed-keeps :
        (ts : List Transaction) (d : Dict Transaction)
        → AllIn registry ts
        → lookup k d ≡ some t
        → lookup k (keyed ts d) ≡ some t
    unfolding keyed
    keyed-keeps [] d h f = f
    keyed-keeps (u ∷ ts) d h f = keyed-keeps ts (insert u.transaction_id u d) h.1 (
        rw (lookup-insert k u.transaction_id u d) elim (Bool-cases (k == u.transaction_id)) [
          | inl e ↦ rw e (ap some (same_entry u e h.0))
          | inr e ↦ rw e f
        ])

    -- `t` is in the list.
    unfoldable pub Listed : List Transaction → Type 0
    Listed [] = ⊥
    Listed (u ∷ us) = (u ≡ t) ⊎ Listed us

    pub keyed-finds :
        (ts : List Transaction) (d : Dict Transaction)
        → t.transaction_id ≡ k
        → AllIn registry ts
        → Listed ts
        → lookup k (keyed ts d) ≡ some t
    unfolding keyed Listed
    keyed-finds [] d n h l = elim l [ ]
    keyed-finds (u ∷ ts) d n h (inl e) = keyed-keeps ts (insert u.transaction_id u d) h.1 (
        lookup-insert k u.transaction_id u d
        ∙ ground (
          arith,
          (==_iff k u.transaction_id).1,
          e,
          n,
          ap (λ (x : Transaction). x.transaction_id) e,
        ))
    keyed-finds (u ∷ ts) d n h (inr l) = keyed-finds ts (insert u.transaction_id u d) n h.1 l

    here-same : (j : ℕ) (u : Transaction) → (k == j) ≡ true → lookup j registry ≡ some u → u ≡ t
    here-same j u e h = ground (arith, (==_iff k j).0 e)

    pub unresolved-Listed :
        (d : Dict Transaction)
        → is_unresolved t ≡ true
        → lookup k d ≡ some t
        → Listed (unresolved d)
    unfolding unresolved Listed
    unresolved-Listed [] o f = cc
    unresolved-Listed ((j, u) ∷ d) o f = elim (Bool-cases (k == j)) [
      | inl e ↦ let same : u ≡ t = ground (arith, e, f) in rw (ap is_unresolved same ∙ o) (inl same)
      | inr e ↦
          let rest = unresolved-Listed d o (rw e at f) in
          elim (Bool-cases (is_unresolved u)) [
            | inl open_one ↦ rw open_one (inr rest)
            | inr closed_one ↦ rw closed_one rest
          ]
    ]

    -- What a saved transaction does to the row of `k`.
    saved_row :
        (u : Transaction) (s : Store)
        → ((k == u.transaction_id) ≡ true → u ≡ t)
        → ((k == u.transaction_id) ≡ false
            → lookup k s.transactions ≡ some (transaction_to_record t))
        → lookup k (save_transaction u s).transactions ≡ some (transaction_to_record t)
    unfolding save_transaction
    saved_row u s same kept =
        lookup-insert k u.transaction_id (transaction_to_record u) s.transactions
        ∙ elim (Bool-cases (k == u.transaction_id)) [
          | inl e ↦ rw e (ap (λ x. some (transaction_to_record x)) (same e))
          | inr e ↦ rw e (kept e)
        ]

    other_row :
        (u : Transaction) (s : Store)
        → (k == u.transaction_id) ≡ false
        → lookup k (save_transaction u s).transactions ≡ lookup k s.transactions
    unfolding save_transaction
    other_row u s e =
        lookup-insert k u.transaction_id (transaction_to_record u) s.transactions ∙ rw e refl

    pub save_transactions-keeps :
        (d : Dict Transaction) (s : Store)
        → Agrees registry d
        → (lookup k d ≡ some t) ⊎ (lookup k s.transactions ≡ some (transaction_to_record t))
        → lookup k (save_transactions (values d) s).transactions ≡ some (transaction_to_record t)
    unfolding save_transactions
    save_transactions-keeps [] s a (inl f) = cc
    save_transactions-keeps [] s a (inr f) = f
    save_transactions-keeps ((j, u) ∷ d) s a f =
        save_transactions-keeps d (save_transaction u s) a.2 (elim (Bool-cases (k == j)) [
          | inl e ↦ inr (saved_row u s (λ x. here-same j u e a.0) (λ x. absurd_key e x))
          | inr e ↦ elim f [
            | inl g ↦ inl (rw e at g)
            | inr g ↦ inr (other_row u s (ap (λ i. k == i) a.1 ∙ e) ∙ g)
          ]
        ])
      where
        absurd_key :
            (k == j) ≡ true
            → (k == u.transaction_id) ≡ false
            → lookup k s.transactions ≡ some (transaction_to_record t)
        absurd_key e x = ground (arith, a.1)
