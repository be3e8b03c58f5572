-- ===== src/Eth/Polling/Timers.antt =====
-- The timers that tracked sources are polled by.
use chainlink_eth_secret_net.Base.{
  ℕ, String, Option, none, some, ◌≤◌, ◌≡◌, refl, inl, inr, arith, Option-cases, str_eq_iff, nat_eq,
  string_eq,
}
use chainlink_eth_secret_net.Base.Maps
use chainlink_eth_secret_net.Base.Maps.{get-set}
use chainlink_eth_secret_net.Data.Records.{FeedSourceData}
use chainlink_eth_secret_net.Eth.Action.{Action, Node, Polled, ◌>>=◌}
use chainlink_eth_secret_net.Eth.Action.Outcomes.{Outcome-cases}
use chainlink_eth_secret_net.Eth.Casting.Written.{Keeps}
use chainlink_eth_secret_net.Eth.Polling.{check_for_source_data_change}

abbrev pub timeout_of : Option Polled → Option ℕ
timeout_of none = none
timeout_of (some p) = some p.timeout

-- No timer starts or ends, and no source is tracked with another one.
pub record KeepsTimers (n n' : Node) : Type 0 where
  pub intervals : n'.intervals ≡ n.intervals
  pub timeouts :
      (k : String)
      → timeout_of (Maps.get k n'.source_polling) ≡ timeout_of (Maps.get k n.source_polling)
  pub calls : n.calls ≤ n'.calls

pub Keeps-KeepsTimers : (n n' : Node) → Keeps n n' → KeepsTimers n n'
Keeps-KeepsTimers n n' k = record {
  intervals = k.intervals;
  timeouts = λ id. rw (k.source_polling) refl;
  calls = k.calls;
}

pub KeepsTimers-refl : (n : Node) → KeepsTimers n n
KeepsTimers-refl n = record { intervals = refl; timeouts = λ k. refl; calls = omega arith }

pub KeepsTimers-trans : (l m n : Node) → KeepsTimers l m → KeepsTimers m n → KeepsTimers l n
KeepsTimers-trans l m n a b = record {
  intervals = rw (b.intervals) (a.intervals);
  timeouts = λ id. rw (b.timeouts id) (a.timeouts id);
  calls = omega (arith, a.calls, b.calls);
}

pub check_for_source_data_change-KeepsTimers :
    (id : String) (d : FeedSourceData) (n : Node)
    → KeepsTimers n (check_for_source_data_change id d n).1
unfolding check_for_source_data_change
check_for_source_data_change-KeepsTimers id d n =
    elim (Option-cases (Maps.get id n.source_polling)) [
      | inl e ↦ rw (e, check_for_source_data_change) (KeepsTimers-refl n)
      | inr (p, e) ↦ record {
        intervals = ground arith;
        timeouts = λ k. ground (
          arith,
          get-set id k (record { last = some d; timeout = p.timeout }) n.source_polling,
          str_eq_iff id k,
        );
        calls = ground arith;
      }
    ]

pub bind-KeepsTimers :
    {A B : Type 0} (m : Action A) (f : A → Action B) (n : Node)
    → KeepsTimers n (m n).1
    → ((a : A) (n' : Node) → KeepsTimers n' (f a n').1)
    → KeepsTimers n ((m >>= f) n).1
bind-KeepsTimers m f n km kf = elim (Outcome-cases (m n).0) [
  | inl (a, e) ↦ rw (e, ◌>>=◌) (KeepsTimers-trans n (m n).1 (f a (m n).1).1 km (kf a (m n).1))
  | inr (x, e) ↦ rw (e, ◌>>=◌) km
]
