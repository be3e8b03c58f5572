-- ===== src/Eth/Action/Outcomes.antt =====
-- Outcomes of actions, and of one action after another.
use chainlink_eth_secret_net.Base.{◌≡◌, refl, ap, ◌⊎◌, inl, inr, arith}
use chainlink_eth_secret_net.Eth.World.{Failure, Step}
use chainlink_eth_secret_net.Eth.Action.{Action, Node, Outcome, ok, err, rethrown, ◌>>=◌}

pub Outcome-cases :
    {A : Type 0} (r : Outcome A) → ((a : A) × (r ≡ ok a)) ⊎ ((e : Failure) × (r ≡ err e))
Outcome-cases (ok a) = inl (a, refl)
Outcome-cases (err e) = inr (e, refl)

-- A sequence that succeeds succeeds at each step.
pub bind-ok :
    {A B : Type 0} (m : Action A) (f : A → Action B) (n : Node) (b : B)
    → ((m >>= f) n).0 ≡ ok b
    → (a : A) × ((m n).0 ≡ ok a) × ((f a (m n).1).0 ≡ ok b)
bind-ok m f n b done = elim (Outcome-cases (m n).0) [
  | inl (a, e) ↦ (a, e, ground arith)
  | inr (x, e) ↦ ground arith
]

pub rethrown-ok : {A : Type 0} (s : Step) (r : Outcome A) (a : A) → rethrown s r ≡ ok a → r ≡ ok a
rethrown-ok s (ok b) a done = done
rethrown-ok s (err e) a done = cc

-- A step of which the outcome is known.
pub bind-step :
    {A B : Type 0} (m : Action A) (f : A → Action B) (n n' : Node) (a : A)
    → m n ≡ (ok a, n')
    → (m >>= f) n ≡ f a n'
bind-step {A} {B} m f n n' a e =
    let go : Outcome A × Node → Outcome B × Node =
      λ settled. elim settled.0 [ ok a' ↦ f a' settled.1 | err x ↦ (err x, settled.1) ] in
    ap go e
