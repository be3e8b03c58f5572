-- ===== src/Eth/Ticks/Tracking.antt =====
-- A change of the variables of a timer's callback leaves the timers alone.
use chainlink_eth_secret_net.Base.{ℕ, List, [], ◌∷◌, ◌≡◌, refl, arith, nat_eq}
use chainlink_eth_secret_net.Eth.Action.{Node, Interval}
use chainlink_eth_secret_net.Eth.Polling.Stops.{runs}
use chainlink_eth_secret_net.Eth.Polling.Tracking.{IsTracking}
use chainlink_eth_secret_net.Eth.Ticks.{put_interval}

runs-put_interval :
    (t : ℕ) (j : Interval) (l : List Interval) → runs t (put_interval j l) ≡ runs t l
runs-put_interval t j [] = refl
runs-put_interval t j (i ∷ l) = ground (arith, runs-put_interval t j l)

pub put-IsTracking :
    (j : Interval) (n : Node)
    → IsTracking n
    → IsTracking (record n { intervals = put_interval j n.intervals })
put-IsTracking j n h = record {
  below = λ t r. ground (arith, runs-put_interval t j n.intervals, h.below t);
  running = λ k t e. rw (runs-put_interval t j n.intervals) (h.running k t e);
  distinct = h.distinct;
}
