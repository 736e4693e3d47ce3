-- ===== src/Simulators/Faults/Hits.antt =====
-- simulators/faults.py seen as a counter for each code: how often the fault is still to strike.
use flower_vending_system.Prelude.{
  ℕ, ◌+◌, ◌-◌, ◌<◌, false, Option, none, List, [], ◌∷◌, ◌≡◌, refl, ap, arith, ◌==◌, if◌then◌else◌,
  is_some, ltb, Bool-cases, inl, inr,
}
use flower_vending_system.Prelude.Int.{ℤ, pos, negsuc, pos_part}
use flower_vending_system.Prelude.Dict.{Dict, lookup, erase, lookup-insert}
use flower_vending_system.Money.Counts.{IsDict, insert-IsDict}
use flower_vending_system.Devices.Contracts.{FaultCode, fault_number}
use flower_vending_system.Simulators.Faults.{
  FaultPlan, Injector, plans_of, struck, put_back, after_hit, consume_first, consume_fault,
  exhausted,
}

unfoldable pub plan_hits : List FaultPlan → ℕ
plan_hits [] = 0
plan_hits (p ∷ ps) = pos_part p.remaining_hits + plan_hits ps

-- How often the fault of a code is still to strike.
unfoldable pub hits : FaultCode → Injector → ℕ
unfolding plan_hits
hits code i = plan_hits (plans_of (lookup (fault_number code) i))

abbrev pub AllPositive : List FaultPlan → Type 0
AllPositive [] = Unit {0}
AllPositive (p ∷ ps) = (0 < pos_part p.remaining_hits) × AllPositive ps

-- Each code is listed once, and no plan is used up.
pub record IsValid (i : Injector) : Type 0 where
  pub unique : IsDict i
  pub positive : (k : ℕ) → AllPositive (plans_of (lookup k i))

lookup-erase :
    {V : Type 0} (j k : ℕ) (d : Dict V)
    → IsDict d
    → lookup j (erase k d) ≡ (if j == k then none else lookup j d)
lookup-erase j k [] h = ground arith
lookup-erase j k ((i, v) ∷ d) h = ground (arith, lookup-erase j k d h.1)

erase-IsDict : {V : Type 0} (k : ℕ) (d : Dict V) → IsDict d → IsDict (erase k d)
erase-IsDict k [] h = tt
erase-IsDict k ((i, v) ∷ d) h = ground (arith, erase-IsDict k d h.1, lookup-erase i k d h.1)

lookup-put_back :
    (j k : ℕ) (ps : List FaultPlan) (i : Injector)
    → IsDict i
    → plans_of (lookup j (put_back k ps i)) ≡ (if j == k then ps else plans_of (lookup j i))
lookup-put_back j k [] i h = ground (arith, lookup-erase j k i h)
lookup-put_back j k (p ∷ ps) i h = ground (arith, lookup-insert j k (p ∷ ps) i)

put_back-IsDict : (k : ℕ) (ps : List FaultPlan) (i : Injector) → IsDict i → IsDict (put_back k ps i)
put_back-IsDict k [] i h = erase-IsDict k i h
put_back-IsDict k (p ∷ ps) i h = insert-IsDict k (p ∷ ps) i h

plan_hits-after_hit :
    (p : FaultPlan) (ps : List FaultPlan)
    → 0 < pos_part p.remaining_hits
    → plan_hits (after_hit (struck p) ps) + 1 ≡ plan_hits (p ∷ ps)
unfolding plan_hits
plan_hits-after_hit p ps h = ground arith

after_hit-AllPositive :
    (p : FaultPlan) (ps : List FaultPlan)
    → 0 < pos_part p.remaining_hits
    → AllPositive ps
    → AllPositive (after_hit (struck p) ps)
after_hit-AllPositive p ps h k = ground arith

-- What a call of `consume` does to the counters, for its result `r`.
pub record Counts (code : FaultCode) (i : Injector) (r : Option FaultPlan × Injector) : Type 0 where
  pub strikes : is_some r.0 ≡ ltb 0 (hits code i)
  pub counted :
      (other : FaultCode)
      → hits other r.1
        ≡ (if fault_number other == fault_number code then hits other i - 1 else hits other i)
  pub valid : IsValid r.1

not_exhausted : (z : ℤ) → 0 < pos_part z → exhausted z ≡ false
not_exhausted (pos n) h = ground arith
not_exhausted (negsuc n) h = refl

hits-put_back :
    (code other : FaultCode) (p : FaultPlan) (ps : List FaultPlan) (i : Injector)
    → plans_of (lookup (fault_number code) i) ≡ p ∷ ps
    → 0 < pos_part p.remaining_hits
    → IsDict i
    → hits other (put_back (fault_number code) (after_hit (struck p) ps) i)
      ≡ (if fault_number other == fault_number code then hits other i - 1 else hits other i)
unfolding hits
hits-put_back code other p ps i e h d =
    rw (lookup-put_back (fault_number other) (fault_number code) (after_hit (struck p) ps) i d)
      (ground (arith, plan_hits-after_hit p ps h, ap plan_hits e))

put_back-positive :
    (j k : ℕ) (ps : List FaultPlan) (i : Injector)
    → AllPositive ps
    → IsValid i
    → AllPositive (plans_of (lookup j (put_back k ps i)))
put_back-positive j k ps i a h =
    rw (lookup-put_back j k ps i h.unique)
      elim (Bool-cases (j == k)) [ inl e ↦ rw e a | inr e ↦ rw e (h.positive j) ]

consume_first-Counts :
    (code : FaultCode) (ps : List FaultPlan) (i : Injector)
    → plans_of (lookup (fault_number code) i) ≡ ps
    → AllPositive ps
    → IsValid i
    → Counts code i (consume_first (fault_number code) ps i)
unfolding hits plan_hits
consume_first-Counts code [] i e a h = record {
  strikes = rw e refl;
  counted = λ other. ground (arith, e, ap plan_hits e);
  valid = h;
}
consume_first-Counts code (p ∷ ps) i e a h = rw (not_exhausted p.remaining_hits a.0) (record {
  strikes = rw e (ground (arith, a.0));
  counted = λ other. hits-put_back code other p ps i e a.0 h.unique;
  valid = record {
    unique = put_back-IsDict (fault_number code) (after_hit (struck p) ps) i h.unique;
    positive = λ j.
        put_back-positive j (fault_number code) (after_hit (struck p) ps) i
          (after_hit-AllPositive p ps a.0 a.1) h;
  };
})

-- A fault strikes exactly if it has hits left, and then has one less; the other codes' hits stay.
pub consume_fault_lem :
    (code : FaultCode) (i : Injector) → IsValid i → Counts code i (consume_fault code i)
unfolding consume_fault
consume_fault_lem code i h =
    consume_first-Counts code (plans_of (lookup (fault_number code) i)) i refl
      (h.positive (fault_number code)) h
