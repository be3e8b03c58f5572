-- ===== src/Eth/Ticks/Errors.antt =====
-- A polling timer that fires: how many errors end the polling of its source.
use chainlink_eth_secret_net.Base.{
  ℕ, zero, suc, ◌+◌, ◌≤◌, ◌<◌, none, some, ◌≡◌, refl, ◌⊎◌, inl, inr, arith,
}
use chainlink_eth_secret_net.Eth.World.{World, Failure}
use chainlink_eth_secret_net.Eth.Action.{Node, Interval, Outcome, ok, err}
use chainlink_eth_secret_net.Eth.Action.Outcomes.{Outcome-cases}
use chainlink_eth_secret_net.Eth.Ticks.{
  interval_of, poll_data, note_polling_error, load_contract_data, fire, fire_times,
}
use chainlink_eth_secret_net.Eth.Ticks.States.{
  Polls, Stopped, with_errors, note_polling_error-more, note_polling_error-last, Polls-KeepsTimers,
  poll_data-KeepsTimers,
}

-- The number of polls that fail while a timer fires some times.
abbrev count_error : Outcome (Unit {0}) → ℕ → ℕ
count_error (ok _) k = k
count_error (err _) k = suc k

unfoldable pub failures : World → ℕ → ℕ → Node → ℕ
failures w id zero n = 0
failures w id (suc k) n =
    let rest = failures w id k (fire w id n).1 in
    elim (interval_of id n.intervals) [ none ↦ 0 | some i ↦ count_error (poll_data w i n).0 rest ]

le_lt_cases : (m n : ℕ) → (m ≤ n) ⊎ (n < m)
le_lt_cases m n = omega arith

fire-ok :
    (w : World) (i : Interval) (n : Node)
    → Polls n i
    → (poll_data w i n).0 ≡ ok tt
    → Polls (fire w i.id n).1 i
unfolding fire load_contract_data
fire-ok w i n p done =
    rw (p.running, fire)
      (rw (done, load_contract_data)
        (Polls-KeepsTimers i n (poll_data w i n).1 (poll_data-KeepsTimers w i n) p))

fire-err :
    (w : World) (i : Interval) (n : Node) (e : Failure)
    → Polls n i
    → (poll_data w i n).0 ≡ err e
    → (fire w i.id n).1 ≡ (note_polling_error w i e (poll_data w i n).1).1
unfolding fire load_contract_data
fire-err w i n e p failed = rw (p.running, fire) (rw (failed, load_contract_data) refl)

stays-Stopped :
    (w : World) (i : Interval) (k : ℕ) (n : Node) → Stopped n i → Stopped (fire_times w i.id k n) i
unfolding fire_times fire
stays-Stopped w i zero n s = s
stays-Stopped w i (suc k) n s = stays-Stopped w i k (fire w i.id n).1 (rw (s.ended, fire) s)

-- Both sides of the maximum.
fire_times_lem :
    (w : World) (k : ℕ) (i : Interval) (n : Node)
    → Polls n i
    → let total = i.polling_error_counter + failures w i.id k n in
      (suc total < w.settings.max_successive_error_to_stop_polling
        → Polls (fire_times w i.id k n) (with_errors total i))
      × (w.settings.max_successive_error_to_stop_polling ≤ suc total
          → 0 < failures w i.id k n
          → Stopped (fire_times w i.id k n) i)
unfolding fire_times failures
fire_times_lem w zero i n p =
    let same : i.polling_error_counter + 0 ≡ i.polling_error_counter = omega arith in
    (λ few. rw same p, λ many new. ground arith)
fire_times_lem w (suc k) i n p = elim (Outcome-cases (poll_data w i n).0) [
  | inl (u, done) ↦
      rw (p.running, failures)
        (rw done (fire_times_lem w k i (fire w i.id n).1 (fire-ok w i n p done)))
  | inr (e, failed) ↦
      let n' = (poll_data w i n).1 in
      let p' = Polls-KeepsTimers i n n' (poll_data-KeepsTimers w i n) p in
      let c = i.polling_error_counter in
      let f = failures w i.id k (fire w i.id n).1 in
      let max = w.settings.max_successive_error_to_stop_polling in
      let step : c + suc f ≡ suc c + f = omega arith in
      rw (p.running, failures)
        (rw failed (
          rw step (elim (le_lt_cases max (suc (suc c))) [
            | inl enough ↦
                let s : Stopped (fire w i.id n).1 i =
                  rw (fire-err w i n e p failed) (note_polling_error-last w i e n' p' enough) in
                (λ few. ground arith, λ many new. stays-Stopped w i k (fire w i.id n).1 s)
            | inr few ↦
                let more : Polls (fire w i.id n).1 (with_errors (suc c) i) =
                  rw (fire-err w i n e p failed) (note_polling_error-more w i e n' p' few) in
                let (on, off) = fire_times_lem w k (with_errors (suc c) i) (fire w i.id n).1 more in
                (
                  on,
                  λ many new.
                      let s = off many (omega arith) in
                      record { ended = s.ended; forgotten = s.forgotten },
                )
          ])))
]

-- While the errors of the polls of a timer, those before included, are fewer than the maximum less
-- one, its source is still polled after any number of firings, and the errors are counted.
-- Successful polls between the errors do not lower their count.
pub fire_times-Polls :
    (w : World) (k : ℕ) (i : Interval) (n : Node)
    → Polls n i
    → suc (i.polling_error_counter + failures w i.id k n)
      < w.settings.max_successive_error_to_stop_polling
    → Polls (fire_times w i.id k n) (with_errors (i.polling_error_counter + failures w i.id k n) i)
fire_times-Polls w k i n p few = (fire_times_lem w k i n p).0 few

-- The polling of a source ends with its errors: once a poll of the timer fails, and the errors of its
-- polls, those before included, are as many as the maximum less one, successive or not, the timer
-- has ended and the source is no longer tracked, whatever reports fail.
pub fire_times-Stopped :
    (w : World) (k : ℕ) (i : Interval) (n : Node)
    → Polls n i
    → w.settings.max_successive_error_to_stop_polling
      ≤ suc (i.polling_error_counter + failures w i.id k n)
    → 0 < failures w i.id k n
    → Stopped (fire_times w i.id k n) i
fire_times-Stopped w k i n p many new = (fire_times_lem w k i n p).1 many new
