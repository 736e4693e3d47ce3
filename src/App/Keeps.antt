-- ===== src/App/Keeps.antt =====
-- Invariants of actions, with a rule for each way in which App/World builds one.
pub mod Stable
pub mod Guarded
pub mod Vend
pub mod Sale
pub mod Commands
pub mod Recovery
pub mod Timeout
use flower_vending_system.Prelude.{ℕ, Bool, true, false, Option, none, some, ◌≡◌, refl}
use flower_vending_system.Prelude.Result.{Error, Result, ok, err}
use flower_vending_system.App.World.{
  World, Env, Action, pure, raise, lift, gets, try_except, rescue, or_raise, resume, ◌>>=◌, modify,
  raise_if, when, if_else,
}

-- `m` leads from `P` to `Q`, whether it returns or raises.
pub record Leads {A : Type 0} (P Q : World → Type 0) (m : Action A) : Type 0 where
  pub at : (w : World) → P w → Q (m w).1

abbrev pub Keeps : {A : Type 0} → (World → Type 0) → Action A → Type 0
Keeps P m = Leads P P m

module _ {A : Type 0} {P : World → Type 0} where
  pub Keeps-pure : (a : A) → Keeps P (pure a)
  unfolding pure
  Keeps-pure a = record { at = λ w h. h }

  pub Keeps-raise : (e : Error) → Keeps P (raise {A = A} e)
  unfolding raise
  Keeps-raise e = record { at = λ w h. h }

  pub Keeps-lift : (r : Result A) → Keeps P (lift r)
  unfolding lift
  Keeps-lift r = record { at = λ w h. h }

  pub Keeps-gets : (f : World → A) → Keeps P (gets f)
  unfolding gets
  Keeps-gets f = record { at = λ w h. h }

  pub Keeps-or_raise : (o : Option A) (e : Error) → Keeps P (or_raise o e)
  unfolding or_raise
  Keeps-or_raise none e = record { at = λ w h. h }
  Keeps-or_raise (some a) e = record { at = λ w h. h }

module _ {A : Type 0} {P Q : World → Type 0} where
  pub Leads-weaken : (m : Action A) → ((w : World) → P w → Q w) → Keeps P m → Leads P Q m
  Leads-weaken m weaken k = record { at = λ w h. weaken _ (k.at w h) }

  pub Leads-strengthen : (m : Action A) → ((w : World) → P w → Q w) → Keeps Q m → Leads P Q m
  Leads-strengthen m stronger k = record { at = λ w h. k.at w (stronger w h) }

  pub Leads-try_except :
      (m : Action A) (handle : Error → Action A)
      → Leads P Q m
      → ((e : Error) → Keeps Q (handle e))
      → Leads P Q (try_except m handle)
  unfolding try_except
  Leads-try_except m handle km kh = record {
    at = λ w h. let (r, w') = m w in after r w' (km.at w h);
  }
    where
      after : (r : Result A) (w : World) → Q w → Q (rescue r handle w).1
      after (ok a) w h = h
      after (err e) w h = (kh e).at w h

module _ {A B : Type 0} {P R Q : World → Type 0} where
  -- What holds in between must be enough if `m` raises.
  pub Leads-bind :
      (m : Action A) (f : A → Action B)
      → Leads P R m
      → ((w : World) → R w → Q w)
      → ((a : A) → Leads R Q (f a))
      → Leads P Q (m >>= f)
  unfolding ◌>>=◌
  Leads-bind m f km weaken kf = record { at = λ w h. let (r, w') = m w in after r w' (km.at w h) }
    where
      after : (r : Result A) (w : World) → R w → Q (resume r f w).1
      after (ok a) w h = (kf a).at w h
      after (err e) w h = weaken w h

module _ {P : World → Type 0} where
  pub Keeps-bind :
      {A B : Type 0} (m : Action A) (f : A → Action B)
      → Keeps P m
      → ((a : A) → Keeps P (f a))
      → Keeps P (m >>= f)
  Keeps-bind m f km kf = Leads-bind m f km (λ w h. h) kf

  pub Keeps-try_except :
      {A : Type 0} (m : Action A) (handle : Error → Action A)
      → Keeps P m
      → ((e : Error) → Keeps P (handle e))
      → Keeps P (try_except m handle)
  Keeps-try_except m handle km kh = Leads-try_except m handle km kh

  pub Keeps-raise_if : (c : Bool) (e : Error) → Keeps P (raise_if c e)
  unfolding raise_if
  Keeps-raise_if c e = record { at = λ w h. h }

  pub Keeps-when : (c : Bool) (m : Action (Unit {0})) → Keeps P m → Keeps P (when c m)
  unfolding when
  Keeps-when true m k = record { at = λ w h. k.at w h }
  Keeps-when false m k = record { at = λ w h. h }

  pub Leads-if_else :
      {Q : World → Type 0} (c : Bool) (m n : Action (Unit {0}))
      → Leads P Q m
      → Leads P Q n
      → Leads P Q (if_else c m n)
  unfolding if_else
  Leads-if_else true m n k l = record { at = λ w h. k.at w h }
  Leads-if_else false m n k l = record { at = λ w h. l.at w h }

  pub Keeps-if_else :
      (c : Bool) (m n : Action (Unit {0})) → Keeps P m → Keeps P n → Keeps P (if_else c m n)
  Keeps-if_else c m n k l = Leads-if_else c m n k l

pub ruleset keeps_rules = (
  Keeps-pure, Keeps-raise, Keeps-lift, Keeps-gets, Keeps-or_raise, Keeps-try_except, Keeps-bind,
  Keeps-raise_if, Keeps-when, Keeps-if_else,
)
