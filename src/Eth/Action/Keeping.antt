-- ===== src/Eth/Action/Keeping.antt =====
-- Invariants of actions on an instance: one rule for each way to build an action.
use chainlink_eth_secret_net.Base.{Bool, true, false, inl, inr, if◌then◌else◌}
use chainlink_eth_secret_net.Eth.World.{Failure, Step}
use chainlink_eth_secret_net.Eth.Action.{
  Action, Node, Outcome, pure, throw, rethrow, attempt, guard, gets, ◌>>=◌,
}
use chainlink_eth_secret_net.Eth.Action.Outcomes.{Outcome-cases}

-- The action keeps `P`, whether it returns or throws.
pub record Preserves {A : Type 0} (P : Node → Type 0) (m : Action A) : Type 0 where
  pub at : (n : Node) → P n → P (m n).1

module _ {A : Type 0} {P : Node → Type 0} where
  pub Preserves-pure : (a : A) → Preserves P (pure a)
  Preserves-pure a = record { at = λ n h. h }

  pub Preserves-throw : (e : Failure) → Preserves P (throw {A = A} e)
  Preserves-throw e = record { at = λ n h. h }

  pub Preserves-gets : (f : Node → A) → Preserves P (gets f)
  Preserves-gets f = record { at = λ n h. h }

  pub Preserves-rethrow : (s : Step) (m : Action A) → Preserves P m → Preserves P (rethrow s m)
  Preserves-rethrow s m k = record { at = k.at }

  pub Preserves-attempt : (s : Step) (m : Action A) → Preserves P m → Preserves P (attempt s m)
  Preserves-attempt s m k = record { at = k.at }

  pub Preserves-if :
      (b : Bool) (m k : Action A) → Preserves P m → Preserves P k → Preserves P (if b then m else k)
  Preserves-if true m k pm pk = pm
  Preserves-if false m k pm pk = pk

module _ {P : Node → Type 0} where
  pub Preserves-guard : (b : Bool) (e : Failure) → Preserves P (guard b e)
  Preserves-guard b e = record { at = λ n h. h }

module _ {A B : Type 0} {P : Node → Type 0} where
  pub Preserves-bind :
      (m : Action A) (f : A → Action B)
      → Preserves P m
      → ((a : A) → Preserves P (f a))
      → Preserves P (m >>= f)
  Preserves-bind m f km kf = record {
    at = λ n h. elim (Outcome-cases (m n).0) [
      | inl (a, e) ↦ rw (e, ◌>>=◌) ((kf a).at (m n).1 (km.at n h))
      | inr (x, e) ↦ rw (e, ◌>>=◌) (km.at n h)
    ];
  }

-- A result that was computed without the state.
module _ {A : Type 0} {P : Node → Type 0} where
  pub Preserves-settled : (r : Outcome A) → Preserves P (λ n. (r, n))
  Preserves-settled r = record { at = λ n h. h }

pub ruleset preserves_rules = (
  Preserves-pure, Preserves-throw, Preserves-gets, Preserves-rethrow, Preserves-attempt,
  Preserves-if, Preserves-guard, Preserves-bind, Preserves-settled,
)
