-- ===== src/Eth/Polling/Others.antt =====
-- Timers of no tracked source, and the stop of all polling.
use chainlink_eth_secret_net.Base.{
  ℕ, String, List, [], ◌∷◌, some, ◌≡◌, ◌≢◌, refl, ◌∙◌, inl, inr, arith, Option-cases, nat_eq,
  string_eq,
}
use chainlink_eth_secret_net.Base.Maps
use chainlink_eth_secret_net.Data.SourceEnums.{remove_periodic}
use chainlink_eth_secret_net.Eth.World.{World, shutting_down}
use chainlink_eth_secret_net.Eth.Action.{Node, Polled}
use chainlink_eth_secret_net.Eth.Polling.{stop_and_report, stop_each, stop_all_source_polling}
use chainlink_eth_secret_net.Eth.Polling.Stops.{
  runs, stopped, stop_and_report_kept, stop_and_report-get, stop_source_polling_lem,
  stop_source_polling-unregistered,
}

-- No source is tracked with this timer.
abbrev pub IsUntracked : ℕ → Node → Type 0
IsUntracked t n = (k : String) (p : Polled) → Maps.get k n.source_polling ≡ some p → p.timeout ≢ t

module _ (w : World) (t : ℕ) where
  stop_and_report-IsUntracked :
      (id : String) (n : Node)
      → IsUntracked t n
      → (runs t (stop_and_report w id n).intervals ≡ runs t n.intervals)
        × IsUntracked t (stop_and_report w id n)
  unfolding stopped
  stop_and_report-IsUntracked id n h = (
    rw ((stop_and_report_kept w id n).1) (elim (Option-cases (Maps.get id n.source_polling)) [
      | inl e ↦
          rw (stop_source_polling-unregistered w id remove_periodic (some shutting_down) n e) refl
      | inr (p, e) ↦
          (stop_source_polling_lem w id remove_periodic (some shutting_down) n p e).1 t
          ∙ ground (arith, h id p e)
    ]),
    λ k p e. h k p (ground (arith, stop_and_report-get w id n k)),
  )

  stop_each-IsUntracked :
      (ids : List String) (n : Node)
      → IsUntracked t n
      → runs t (stop_each w ids n).intervals ≡ runs t n.intervals
  unfolding stop_each
  stop_each-IsUntracked [] n h = refl
  stop_each-IsUntracked (id ∷ ids) n h =
      let (same, h') = stop_and_report-IsUntracked id n h in
      stop_each-IsUntracked ids (stop_and_report w id n) h' ∙ same

  -- A stop of all polling leaves a timer that no source is tracked with as it is.
  pub stop_all_source_polling-IsUntracked :
      (n : Node)
      → IsUntracked t n
      → runs t (stop_all_source_polling w n).1.intervals ≡ runs t n.intervals
  unfolding stop_all_source_polling
  stop_all_source_polling-IsUntracked n h = stop_each-IsUntracked (Maps.keys n.source_polling) n h
