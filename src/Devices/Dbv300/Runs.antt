-- ===== src/Devices/Dbv300/Runs.antt =====
-- What holds of the adapter of devices/dbv300sd/adapter.py after any requests and passes of its
-- polling loop, whatever the protocol behind it answers.
use flower_vending_system.Prelude.{
  Bool, true, false, not, ◌&&◌, List, [], ◌∷◌, ◌≡◌, refl, sym, ap, ◌∙◌, inl, inr, Bool-cases,
  if◌then◌else◌,
}
use flower_vending_system.Devices.Contracts.{ValidatorEvent}
use flower_vending_system.Devices.Errors.{Outcome, returned, raised}
use flower_vending_system.Devices.Step.{◌>>=◌, update, after}
use flower_vending_system.Devices.Dbv300.Config.{ValidatorConfig}
use flower_vending_system.Devices.Dbv300.Link.{Link, Closes}
use flower_vending_system.Devices.Dbv300.Adapter.{
  request_stop, enter_stop, safe_shutdown, Adapter, call, accept_escrow, return_escrow, read_event,
  poll_pass, after_poll, take_event, start_adapter, stop_adapter,
}
use flower_vending_system.Devices.Dbv300.Shutdown.{ClosesOnly, safe_shutdown-closes, started_again}
use flower_vending_system.Devices.Dbv300.Startup.{Starts, start_adapter-Starts}
use flower_vending_system.Devices.Dbv300.Polling.{Polls, poll_pass-Polls}
use flower_vending_system.Devices.Dbv300.Requests.{Request, perform, perform_all}
use flower_vending_system.Devices.Dbv300.Commands.{
  IsIdle, IsSafe, enable-IsSafe, disable-IsSafe, use_escrow-IsSafe,
}

true-ne-false : true ≡ false → ⊥
true-ne-false h = cc

pub runs_when : (a b : Bool) → (a && not b) ≡ true → (a ≡ true) × (b ≡ false)
runs_when true true h = cc
runs_when true false h = (refl, refl)
runs_when false b h = cc

module _ {T : Type 0} (link : Link T) (config : ValidatorConfig) where
  read_event-IsSafe : (d : Adapter T) → IsSafe link d → IsSafe link (read_event d).1
  unfolding read_event
  read_event-IsSafe d h = taken d.parts.events
    where
      taken : (es : List ValidatorEvent) → IsSafe link (take_event es d).1
      taken [] = h
      taken (e ∷ es) = elim h [ inl s ↦ inl s | inr i ↦ inr i ]

  pub polled-started :
      (d d' : Adapter T) (o : Outcome (List ValidatorEvent))
      → Polls link config d o d'
      → d'.started ≡ d.started
  polled-started d d' (returned es) (_, _, _, _, _, same) = same
  polled-started d d' (raised e) (_, _, _, _, _, same) = same

  pub poll_pass-idle :
      (d : Adapter T)
      → (d.parts.polling && not d.parts.stop_requested) ≡ false
      → poll_pass link config d ≡ d
  unfolding poll_pass
  poll_pass-idle d e = ap (λ b. if b then after_poll link config (call link.poll d) else d) e

  poll_pass-IsSafe : (d : Adapter T) → IsSafe link d → IsSafe link (poll_pass link config d)
  poll_pass-IsSafe d h = elim (Bool-cases (d.parts.polling && not d.parts.stop_requested)) [
    | inl e ↦
        let (p, n) = runs_when d.parts.polling d.parts.stop_requested e in
        elim h [
          | inl s ↦ inl (polled-started d _ _ (poll_pass-Polls link config d p n) ∙ s)
          | inr i ↦ absurd (true-ne-false (sym p ∙ i.1))
        ]
    | inr e ↦ rw (poll_pass-idle d e) h
  ]

  module _ (closing : Closes link) where
    started_end :
        (d : Adapter T) (o : Outcome (Unit {0})) (r : Outcome (Unit {0}) × Adapter T)
        → IsIdle link d
        → Starts link config closing d o r
        → IsSafe link r.1
    started_end d (returned v) (returned u, d') i h = inl h.0
    started_end d (raised f) (returned u, d') i h = elim h [ ]
    started_end d (returned v) (raised e, d') i (_, _, a, p, c) = inr (a ∙ i.0, p ∙ i.1, c)
    started_end d (raised f) (raised e, d') i (_, _, a, p, c, _) = inr (a ∙ i.0, p ∙ i.1, c)

    start-IsSafe : (d : Adapter T) → IsSafe link d → IsSafe link (start_adapter link config d).1
    start-IsSafe d h = elim (Bool-cases d.started) [
      | inl s ↦ rw (started_again link config closing d s) (inl s)
      | inr n ↦ elim h [
        | inl s ↦ absurd (true-ne-false (sym s ∙ n))
        | inr i ↦ started_end d _ _ i (start_adapter-Starts link config closing d n)
      ]
    ]

    stopped_end :
        (d d' : Adapter T) (o : Outcome (Unit {0}))
        → IsSafe link d
        → ClosesOnly link (request_stop d) d'
        → IsSafe link (after o (λ u. update enter_stop) d').1
    unfolding update
    stopped_end d d' (returned u) h (t, closed, same) = rw same (inr (refl, refl, closed))
    stopped_end d d' (raised e) h (t, closed, same) =
        rw same elim h [ inl s ↦ inl s | inr i ↦ inr (i.0, refl, closed) ]

    stop-IsSafe : (d : Adapter T) → IsSafe link d → IsSafe link (stop_adapter link d).1
    unfolding stop_adapter ◌>>=◌ update
    stop-IsSafe d h =
        stopped_end d (safe_shutdown link (request_stop d)).1
          (safe_shutdown link (request_stop d)).0 h
          (safe_shutdown-closes link closing (request_stop d))

    perform-IsSafe :
        (r : Request) (d : Adapter T) → IsSafe link d → IsSafe link (perform link config r d)
    unfolding perform accept_escrow return_escrow
    perform-IsSafe Request.start = start-IsSafe
    perform-IsSafe Request.stop = stop-IsSafe
    perform-IsSafe Request.read = read_event-IsSafe
    perform-IsSafe Request.poll = poll_pass-IsSafe
    perform-IsSafe (Request.enable cid) = enable-IsSafe link config cid
    perform-IsSafe (Request.disable cid) = disable-IsSafe link config cid
    perform-IsSafe (Request.accept cid) = use_escrow-IsSafe link config 2 link.stack_escrow cid
    perform-IsSafe (Request.return_bill cid) =
        use_escrow-IsSafe link config 3 link.return_escrow cid

    -- After any requests and passes of the polling loop, whatever the protocol answers, a validator
    -- that is not started accepts nothing, does not poll and has its transport closed, if that held
    -- before them.
    pub perform_all-IsSafe :
        (rs : List Request) (d : Adapter T)
        → IsSafe link d
        → IsSafe link (perform_all link config rs d)
    unfolding perform_all
    perform_all-IsSafe [] d h = h
    perform_all-IsSafe (r ∷ rs) d h = perform_all-IsSafe rs _ (perform-IsSafe r d h)
