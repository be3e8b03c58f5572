-- ===== src/Eth/Validation/Events.antt =====
-- The latest event of a list.
use chainlink_eth_secret_net.Base.{
  ◌≤◌, List, [], ◌∷◌, some, true, ◌≡◌, refl, ◌⊎◌, inl, inr, arith, All, ltb, Bool-cases,
}
use chainlink_eth_secret_net.Base.Int.{pos}
use chainlink_eth_secret_net.Eth.World.{World, EventArgs}
use chainlink_eth_secret_net.Eth.Action.{ok}
use chainlink_eth_secret_net.Eth.Validation.{latest_from, latest_event}

-- An event of a list.
abbrev pub IsOneOf : EventArgs → List EventArgs → Type 0
IsOneOf m [] = ⊥
IsOneOf m (e ∷ es) = (m ≡ e) ⊎ IsOneOf m es

-- The event is of no later round than the first.
abbrev pub NoLater : EventArgs → EventArgs → Type 0
NoLater m e = e.round ≤ m.round

module _ (w : World) where
  latest_from-some :
      (l : EventArgs) (es : List EventArgs)
      → All (λ e. w.runtime.fits (pos e.round) ≡ true) es
      → (m : EventArgs) × (latest_from w (some l) es ≡ ok (some m))
        × ((m ≡ l) ⊎ IsOneOf m es)
        × (l.round ≤ m.round)
        × All (NoLater m) es
  unfolding latest_from
  latest_from-some l [] h = (l, refl, inl refl, omega arith, tt)
  latest_from-some l (e ∷ es) (fits, h) = elim (Bool-cases (ltb l.round e.round)) [
    | inl later ↦
        let (m, found, one, up, all) = latest_from-some e es h in
        (m, rw fits (rw later found), inr one, ground arith, (up, all))
    | inr same ↦
        let (m, found, one, up, all) = latest_from-some l es h in
        (
          m,
          rw fits (rw same found),
          elim one [ inl own ↦ inl own | inr other ↦ inr (inr other) ],
          up,
          (ground arith, all),
        )
  ]

  -- Of events whose rounds fit in a number, the latest is one of them, and none is of a later round.
  pub latest_event_lem :
      (e : EventArgs) (es : List EventArgs)
      → All (λ e. w.runtime.fits (pos e.round) ≡ true) (e ∷ es)
      → (m : EventArgs) × (latest_event w (e ∷ es) ≡ ok (some m))
        × IsOneOf m (e ∷ es)
        × All (NoLater m) (e ∷ es)
  unfolding latest_event latest_from
  latest_event_lem e es (fits, h) =
      let (m, found, one, up, all) = latest_from-some e es h in (m, rw fits found, one, (up, all))
