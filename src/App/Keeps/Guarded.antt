-- ===== src/App/Keeps/Guarded.antt =====
-- A device call under its intent keeps a stable invariant, however it ends.
use flower_vending_system.Prelude.{ℕ, Bool, true, Option, none, some, ◌≡◌, refl}
use flower_vending_system.Prelude.Result.{Error}
use flower_vending_system.Domain.Reserve.{Plan, ChangeReserve}
use flower_vending_system.App.World.{
  World, Env, Action, ActionName, LogicalStep, DeviceCall, Event, PayoutReply, ◌>>◌, try_except,
  publish, call, call_payout,
}
use flower_vending_system.App.Journal.{record_intent}
use flower_vending_system.App.Guard.{guards, is_open, is_guarded_of_open, is_open-intent}
use flower_vending_system.App.Change.{
  settle_payout, pay_reserve, dispense_change, settle_refund, dispense_refund,
}
use flower_vending_system.App.Keeps.{
  Leads, Keeps, Leads-bind, keeps_rules, Leads-try_except, Leads-if_else, Leads-weaken, Keeps-pure,
  Keeps-raise,
}
use flower_vending_system.App.Keeps.Stable.{
  Stable, Open, writes, Leads-call, Leads-call_payout, Keeps-require, Keeps-find_plan,
  Keeps-reserve_money_of,
}

module _ {P : World → Type 0} (st : Stable P) where
  -- Under an open intent the call may be made.
  pub Leads-Open-call : (r : ℕ → Bool) (c : DeviceCall) → Leads (Open c P) P (call r c)
  Leads-Open-call r c = record {
    at = λ w h. (Leads-call st r c).at w (h.0, is_guarded_of_open c w.trace h.1);
  }

  Leads-Open_payout :
      (r : ℕ → PayoutReply) (p : Plan) → Leads (Open (DeviceCall.dispense p) P) P (call_payout r p)
  Leads-Open_payout r p = record {
    at = λ w h.
        (Leads-call_payout st r p).at w
          (h.0, is_guarded_of_open (DeviceCall.dispense p) w.trace h.1);
  }

  pub Leads-record_intent :
      (tid : ℕ) (a : ActionName) (s : LogicalStep) (c : DeviceCall)
      → guards a c ≡ true
      → Leads P (Open c P) (record_intent tid a s)
  unfolding record_intent
  Leads-record_intent tid a s c g = record {
    at = λ w h. (st.on_entry w _ h, is_open-intent c _ w.trace g refl);
  }

  -- `record_intent`, then the call in a `try`, then the rest.
  pub Keeps-guarded :
      (tid : ℕ) (a : ActionName) (s : LogicalStep) (r : ℕ → Bool) (c : DeviceCall)
      (handle : Error → Action (Unit {0})) (rest : Action (Unit {0}))
      → guards a c ≡ true
      → ((e : Error) → Keeps P (handle e))
      → Keeps P rest
      → Keeps P (record_intent tid a s >> (try_except (call r c) handle >> rest))
  Keeps-guarded tid a s r c handle rest g kh kr =
      Leads-bind _ _ (Leads-record_intent tid a s c g) (λ w h. h.0)
        λ u. Leads-bind _ _ (Leads-try_except _ _ (Leads-Open-call r c) kh) (λ w h. h) (λ v. kr)

  -- An open payout intent stays open for every plan.
  abbrev Payable : World → Type 0
  Payable w = P w × ((p : Plan) → is_open (DeviceCall.dispense p) w.trace ≡ true)

  Leads-payout_intent :
      (tid : ℕ) (a : ActionName) (s : LogicalStep)
      → ((p : Plan) → guards a (DeviceCall.dispense p) ≡ true)
      → Leads P Payable (record_intent tid a s)
  unfolding record_intent
  Leads-payout_intent tid a s g = record {
    at = λ w h.
        (st.on_entry w _ h, λ p. is_open-intent (DeviceCall.dispense p) _ w.trace (g p) refl);
  }

  Keeps-publish_payable : (e : Event) → Keeps Payable (publish e)
  unfolding publish is_open
  Keeps-publish_payable e = record { at = λ w h. (st.on_publish w e h.0, h.1) }

  paying : (r : ℕ → PayoutReply) (p : Plan) → Leads Payable P (call_payout r p)
  paying r p = record { at = λ w h. (Leads-Open_payout r p).at w (h.0, h.1 p) }

  Keeps-settle_payout :
      (env : Env) (tid : ℕ) (r : ChangeReserve) (reply : PayoutReply)
      → Keeps P (settle_payout env tid r reply)
  unfolding settle_payout
  Keeps-settle_payout env tid r PayoutReply.paid_out = search (keeps_rules, writes) depth 12
  Keeps-settle_payout env tid r PayoutReply.paid_partially = search (keeps_rules, writes) depth 12
  Keeps-settle_payout env tid r _ = search (keeps_rules, writes) depth 12

  Keeps-settle_refund : (r : ChangeReserve) (reply : PayoutReply) → Keeps P (settle_refund r reply)
  unfolding settle_refund
  Keeps-settle_refund r PayoutReply.paid_out = search (keeps_rules, writes) depth 12
  Keeps-settle_refund r PayoutReply.paid_partially = search (keeps_rules, writes) depth 12
  Keeps-settle_refund r _ = search (keeps_rules, writes) depth 12

  stop : {A : Type 0} (m : Action A) → Keeps Payable m → Leads Payable P m
  stop m k = Leads-weaken m (λ w h. h.0) k

  Leads-pay_reserve :
      (env : Env) (tid : ℕ) (r : Option ChangeReserve) → Leads Payable P (pay_reserve env tid r)
  unfolding pay_reserve
  Leads-pay_reserve env tid none = stop _ (Keeps-raise _)
  Leads-pay_reserve env tid (some r) =
      Leads-bind _ _ (paying env.payout r.counts) (λ w h. h) (Keeps-settle_payout env tid r)

  Leads-dispense_change : (env : Env) (tid : ℕ) → Leads Payable P (dispense_change env tid)
  unfolding dispense_change
  Leads-dispense_change env tid =
      Leads-bind _ _ (Keeps-require tid) (λ w h. h.0)
        λ t.
          Leads-if_else _ _ _ (stop _ (Keeps-pure tt)) (Leads-pay_reserve env tid t.change_reserve)

  Leads-dispense_refund :
      (env : Env) (tid amount : ℕ) → Leads Payable P (dispense_refund env tid amount)
  unfolding dispense_refund
  Leads-dispense_refund env tid amount = Leads-if_else _ _ _ (stop _ (Keeps-pure tt)) (
      Leads-bind _ _ (Keeps-find_plan amount) (λ w h. h.0)
        λ p.
          Leads-bind _ _ (Keeps-reserve_money_of (λ w m h. (st.on_money w m h.0, h.1)) tid p)
            (λ w h. h.0)
            λ r. Leads-bind _ _ (paying env.payout r.counts) (λ w h. h) (Keeps-settle_refund r))

  -- The payout of change, and of a refund, under its intent; `e` is published in between.
  pub Keeps-change_payout :
      (env : Env) (tid : ℕ) (e : Event) (handle : Error → Action (Unit {0}))
      (rest : Action (Unit {0}))
      → ((x : Error) → Keeps P (handle x))
      → Keeps P rest
      → Keeps P (
          record_intent tid ActionName.change_dispense_requested LogicalStep.complete_payment_change
          >> (publish e >> (try_except (dispense_change env tid) handle >> rest)))
  Keeps-change_payout env tid e handle rest kh kr =
      Leads-bind _ _ (Leads-payout_intent tid _ _ (λ p. refl)) (λ w h. h.0)
        λ u.
          Leads-bind _ _ (Keeps-publish_payable e) (λ w h. h.0)
            λ v.
              Leads-bind _ _ (Leads-try_except _ _ (Leads-dispense_change env tid) kh) (λ w h. h)
                (λ x. kr)

  pub Keeps-refund_payout :
      (env : Env) (tid amount : ℕ) (handle : Error → Action (Unit {0})) (rest : Action (Unit {0}))
      → ((x : Error) → Keeps P (handle x))
      → Keeps P rest
      → Keeps P (
          record_intent tid ActionName.refund_dispense_requested LogicalStep.cancel_refund
          >> (try_except (dispense_refund env tid amount) handle >> rest))
  Keeps-refund_payout env tid amount handle rest kh kr =
      Leads-bind _ _ (Leads-payout_intent tid _ _ (λ p. refl)) (λ w h. h.0)
        λ u.
          Leads-bind _ _ (Leads-try_except _ _ (Leads-dispense_refund env tid amount) kh) (λ w h. h)
            (λ x. kr)
