-- ===== src/Eth/Action/Leading.antt =====
-- What holds of an instance after an action: one property where the action returns, which may speak of
-- the result, and one where it throws.
use chainlink_eth_secret_net.Base.{◌≡◌, refl, Bool, true, false, inl, inr, if◌then◌else◌}
use chainlink_eth_secret_net.Eth.World.{Failure, Step}
use chainlink_eth_secret_net.Eth.Action.{
  Action, Node, Outcome, ok, err, rethrown, pure, rethrow, ◌>>=◌,
}
use chainlink_eth_secret_net.Eth.Action.Outcomes.{Outcome-cases, rethrown-ok}
use chainlink_eth_secret_net.Eth.Action.Keeping.{Preserves}

pub record Leads {A : Type 0} (P : Node → Type 0) (m : Action A) (Q : A → Node → Type 0)
    (R : Node → Type 0) : Type 0 where
  pub returned : (n : Node) (a : A) → P n → (m n).0 ≡ ok a → Q a (m n).1
  pub thrown : (n : Node) (e : Failure) → P n → (m n).0 ≡ err e → R (m n).1

rethrown-err :
    {A : Type 0} (s : Step) (r : Outcome A) (e : Failure)
    → rethrown s r ≡ err e
    → (x : Failure) × (r ≡ err x)
rethrown-err s (ok a) e h = cc h
rethrown-err s (err x) e h = (x, refl)

module _ {A : Type 0} {P R : Node → Type 0} where
  pub Leads-pure :
      {Q : A → Node → Type 0} (a : A) → ((n : Node) → P n → Q a n) → Leads P (pure a) Q R
  Leads-pure {Q} a h = record {
    returned = λ n b p e. let same : a ≡ b = cc e in rw (← same) (h n p);
    thrown = λ n e p x. cc x;
  }

  pub Leads-rethrow :
      {Q : A → Node → Type 0} (s : Step) (m : Action A) → Leads P m Q R → Leads P (rethrow s m) Q R
  Leads-rethrow s m h = record {
    returned = λ n a p e. h.returned n a p (rethrown-ok s (m n).0 a e);
    thrown = λ n e p x. let (y, r) = rethrown-err s (m n).0 e x in h.thrown n y p r;
  }

  pub Leads-if :
      {Q : A → Node → Type 0} (b : Bool) (m k : Action A)
      → Leads P m Q R
      → Leads P k Q R
      → Leads P (if b then m else k) Q R
  Leads-if true m k hm hk = hm
  Leads-if false m k hm hk = hk

  -- An action that keeps `P`, from which the property of a throw follows.
  pub Preserves-Leads :
      (m : Action A) → Preserves P m → ((n : Node) → P n → R n) → Leads P m (λ a. P) R
  Preserves-Leads m k weaken = record {
    returned = λ n a p e. k.at n p;
    thrown = λ n e p x. weaken (m n).1 (k.at n p);
  }

-- A stronger property before the action.
pub Leads-from :
    {A : Type 0} {P P' R : Node → Type 0} {Q : A → Node → Type 0} (m : Action A)
    → Leads P m Q R
    → ((n : Node) → P' n → P n)
    → Leads P' m Q R
Leads-from m h stronger = record {
  returned = λ n a p e. h.returned n a (stronger n p) e;
  thrown = λ n x p e. h.thrown n x (stronger n p) e;
}

pub Leads-Preserves :
    {A : Type 0} {P : Node → Type 0} (m : Action A) → Leads P m (λ a. P) P → Preserves P m
Leads-Preserves m h = record {
  at = λ n p. elim (Outcome-cases (m n).0) [
    | inl (a, e) ↦ h.returned n a p e
    | inr (x, e) ↦ h.thrown n x p e
  ];
}

module _ {A B : Type 0} {P R : Node → Type 0} where
  pub Leads-bind :
      {Q : A → Node → Type 0} {S : B → Node → Type 0} (m : Action A) (f : A → Action B)
      → Leads P m Q R
      → ((a : A) → Leads (Q a) (f a) S R)
      → Leads P (m >>= f) S R
  Leads-bind m f hm hf = record {
    returned = λ n b p. elim (Outcome-cases (m n).0) [
      | inl (a, e) ↦ rw (e, ◌>>=◌) ((hf a).returned (m n).1 b (hm.returned n a p e))
      | inr (x, e) ↦ rw (e, ◌>>=◌) (λ done. cc done)
    ];
    thrown = λ n x p. elim (Outcome-cases (m n).0) [
      | inl (a, e) ↦ rw (e, ◌>>=◌) ((hf a).thrown (m n).1 x (hm.returned n a p e))
      | inr (y, e) ↦ rw (e, ◌>>=◌) (λ failed. hm.thrown n y p e)
    ];
  }
