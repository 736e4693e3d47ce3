-- ===== src/Devices/Dbv300/Requests.antt =====
-- What is asked of the adapter of devices/dbv300sd/adapter.py, one request or pass of its polling
-- loop after the other.
use flower_vending_system.Prelude.{ℕ, Option, List, [], ◌∷◌}
use flower_vending_system.Devices.Dbv300.Config.{ValidatorConfig}
use flower_vending_system.Devices.Dbv300.Link.{Link}
use flower_vending_system.Devices.Dbv300.Adapter.{
  Adapter, start_adapter, stop_adapter, enable_acceptance, disable_acceptance, accept_escrow,
  return_escrow, read_event, poll_pass,
}

pub data Request : Type 0 where
  start stop read poll : Request
  enable disable accept return_bill : Option ℕ → Request

module _ {T : Type 0} (link : Link T) (config : ValidatorConfig) where
  unfoldable pub perform : Request → Adapter T → Adapter T
  unfolding start_adapter stop_adapter enable_acceptance disable_acceptance accept_escrow
      return_escrow read_event poll_pass
  perform Request.start d = (start_adapter link config d).1
  perform Request.stop d = (stop_adapter link d).1
  perform Request.read d = (read_event d).1
  perform Request.poll d = poll_pass link config d
  perform (Request.enable cid) d = (enable_acceptance link config cid d).1
  perform (Request.disable cid) d = (disable_acceptance link config cid d).1
  perform (Request.accept cid) d = (accept_escrow link config cid d).1
  perform (Request.return_bill cid) d = (return_escrow link config cid d).1

  unfoldable pub perform_all : List Request → Adapter T → Adapter T
  unfolding perform
  perform_all [] d = d
  perform_all (r ∷ rs) d = perform_all rs (perform r d)
