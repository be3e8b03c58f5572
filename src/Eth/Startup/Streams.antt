-- ===== src/Eth/Startup/Streams.antt =====
-- What the start of the streams leaves, which no one waits for.
use chainlink_eth_secret_net.Base.{
  ℕ, suc, ◌∷◌, Bool, true, false, ◌≡◌, ap, ◌⊎◌, inl, inr, refl, Option-cases, string_eq,
}
use chainlink_eth_secret_net.Config.Service
use chainlink_eth_secret_net.Config.Service.{RelaydConfigService}
use chainlink_eth_secret_net.Eth.World.{
  Failure, rejected, within, streams_corrupted, table_init, logging_init,
}
use chainlink_eth_secret_net.Eth.Action.{Outcome, ok, err, rethrown}
use chainlink_eth_secret_net.Eth.Startup.{
  EthConnectService, Launch, leave_streams, init_streams, init_table_and_merge, logging_unless,
  left_behind, ◌>>◌,
}

-- The start of the streams changes nothing else, and says whether the stream of merges runs.
record HasStreams (s s' : EthConnectService) (r : Outcome (Unit {0})) : Type 0 where
  calls : ℕ
  node : s'.node ≡ record s.node { calls = calls }
  filters : s'.filters ≡ s.filters
  unhandled : s'.unhandled ≡ s.unhandled
  result :
      ((r ≡ ok tt) × (s'.source_table ≡ true) × (s'.merging ≡ true))
      ⊎ ((e : Failure) × (r ≡ err e) × (s'.merging ≡ s.merging))

init_table_and_merge-HasStreams :
    (l : Launch) (s : EthConnectService)
    → HasStreams s (init_table_and_merge l s).1 (init_table_and_merge l s).0
unfolding init_table_and_merge
init_table_and_merge-HasStreams l s = elim (Option-cases (l.table s.node.calls)) [
  | inl e ↦ rw e (record {
    calls = suc s.node.calls;
    node = refl;
    filters = refl;
    unhandled = refl;
    result = inr (within table_init rejected, refl, refl);
  })
  | inr (u, e) ↦ rw e (elim (Option-cases (l.merge (suc s.node.calls))) [
    | inl f ↦ rw f (record {
      calls = suc (suc s.node.calls);
      node = refl;
      filters = refl;
      unhandled = refl;
      result = inr (rejected, refl, refl);
    })
    | inr (v, f) ↦ rw f (record {
      calls = suc (suc s.node.calls);
      node = refl;
      filters = refl;
      unhandled = refl;
      result = inl (refl, refl, refl);
    })
  ])
]

logged-HasStreams :
    (production : Bool) (l : Launch) (s : EthConnectService)
    → let (r, s') = (logging_unless production l >> init_table_and_merge l) s in HasStreams s s' r
logged-HasStreams true l s = init_table_and_merge-HasStreams l s
logged-HasStreams false l s = elim (Option-cases (l.logging s.node.calls)) [
  | inl f ↦ rw f (record {
    calls = suc s.node.calls;
    node = refl;
    filters = refl;
    unhandled = refl;
    result = inr (within logging_init rejected, refl, refl);
  })
  | inr (u, f) ↦ rw f (
      let h =
        init_table_and_merge-HasStreams l
          (record s { node = record s.node { calls = suc s.node.calls } }) in
      record {
        calls = h.calls;
        node = h.node;
        filters = h.filters;
        unhandled = h.unhandled;
        result = h.result;
      })
]

init_streams-HasStreams :
    (c : RelaydConfigService) (l : Launch) (s : EthConnectService)
    → HasStreams s (init_streams c l s).1 (init_streams c l s).0
unfolding init_streams
init_streams-HasStreams c l s = logged-HasStreams (Service.in_mode_prod c) l s

-- What a service is whose streams were left to start.
abbrev pub IsLeft : EthConnectService → EthConnectService → Type 0
IsLeft s s' =
    ((calls : ℕ) × (s'.node ≡ record s.node { calls = calls }))
    × (s'.filters ≡ s.filters)
    × (((s'.source_table ≡ true) × (s'.merging ≡ true))
        ⊎ ((e : Failure) × (s'.merging ≡ s.merging)
            × (s'.unhandled ≡ within streams_corrupted e ∷ s.unhandled)))

left_behind-IsLeft :
    (s s' : EthConnectService) (r : Outcome (Unit {0}))
    → HasStreams s s' r
    → IsLeft s (left_behind (rethrown streams_corrupted r) s')
left_behind-IsLeft s s' (ok u) h = (
  (h.calls, h.node),
  h.filters,
  elim h.result [ inl (_, table, merging) ↦ inl (table, merging) | inr (e, r, _) ↦ absurd (cc r) ],
)
left_behind-IsLeft s s' (err e) h = (
  (h.calls, h.node),
  h.filters,
  elim h.result [
    | inl (r, _, _) ↦ absurd (cc r)
    | inr (_, _, merging) ↦
        inr (e, merging, ap (λ before. within streams_corrupted e ∷ before) h.unhandled)
  ],
)

pub leave_streams-IsLeft :
    (c : RelaydConfigService) (l : Launch) (s : EthConnectService)
    → IsLeft s (leave_streams c l s).1
leave_streams-IsLeft c l s = left_behind-IsLeft s _ _ (init_streams-HasStreams c l s)
