-- ===== src/Eth/Validation/Periodic.antt =====
-- What the validation of a periodically polled source promises.
use chainlink_eth_secret_net.Base.{
  ℕ, ◌<◌, List, [], ◌∷◌, ◌++◌, Option, none, some, true, ◌≡◌, refl, inl, inr, arith,
}
use chainlink_eth_secret_net.Data.FeedEnums.{FeedSourceType, timeperiod, feed_source_poll_eq}
use chainlink_eth_secret_net.Data.Records.{FeedSourceData, FeedConfigSource}
use chainlink_eth_secret_net.Eth.World.{World, own_round_data, invalid_address}
use chainlink_eth_secret_net.Eth.Action.{
  Node, Contract, Outcome, ok, err, rethrown, guard, pure, ◌>>=◌,
}
use chainlink_eth_secret_net.Eth.Action.Outcomes.{Outcome-cases, bind-ok, rethrown-ok}
use chainlink_eth_secret_net.Eth.Contracts.{
  abi_of, init_contract_cl_aggregator, load_contract_decimals, load_contract_latest_round_data,
}
use chainlink_eth_secret_net.Eth.Contracts.RoundChecks.{
  load_contract_latest_round_data-valid, load_contract_decimals-positive,
}
use chainlink_eth_secret_net.Eth.Validation.{
  with_decimals, Check, check_own, proxied_checks, checks_with, pending_checks, checks_of,
  aggregated, aggregate, step_of, assign, blank, validate_source_contract,
}

-- Data with a positive value and a number of decimals that is not 0.
pub record IsSound (w : World) (d : FeedSourceData) : Type 0 where
  pub positive : w.validator.is_positive d.value ≡ true
  pub decimals : (k : ℕ) × (d.decimals ≡ some k) × (0 < k)

-- The round data of a check is there, and sound where it is no error.
abbrev HasSoundRound : World → Check → Type 0
HasSoundRound w c =
    (r : Outcome FeedSourceData) × (c.round_data ≡ some r)
    × ((d : FeedSourceData) → r ≡ ok d → IsSound w d)

own_data-IsSound :
    (w : World) (contract : Contract) (decimals : ℕ) (n : Node) (d : FeedSourceData)
    → 0 < decimals
    → ((load_contract_latest_round_data w contract decimals true >>= with_decimals decimals) n).0
      ≡ ok d
    → IsSound w d
own_data-IsSound w contract decimals n d pos done =
    elim (Outcome-cases (load_contract_latest_round_data w contract decimals true n).0) [
      | inl (l, e) ↦ record {
        positive = ground (arith, load_contract_latest_round_data-valid w contract decimals n l e);
        decimals = (decimals, ground arith, pos);
      }
      | inr (x, e) ↦ ground arith
    ]

check_own-HasSoundRound :
    (w : World) (source : FeedConfigSource) (t : FeedSourceType) (contract : Contract)
    (decimals : ℕ) (n : Node) (c : Check)
    → source.poll ≡ some timeperiod
    → 0 < decimals
    → (check_own w source t contract decimals n).0 ≡ ok c
    → HasSoundRound w c
unfolding check_own
check_own-HasSoundRound w source t contract decimals n c polled pos done =
    let load = load_contract_latest_round_data w contract decimals true in
    (
      rethrown own_round_data ((load >>= with_decimals decimals) n).0,
      ground arith,
      λ d e.
          own_data-IsSound w contract decimals n d pos
            (rethrown-ok own_round_data ((load >>= with_decimals decimals) n).0 d e),
    )

-- A check with sound round data at the end decides what a periodic polling gives.
aggregate-IsSound :
    (w : World) (c : Check) (cs : List Check) (acc d : FeedSourceData)
    → HasSoundRound w c
    → aggregate (some timeperiod) acc (cs ++ c ∷ []) ≡ ok d
    → IsSound w d
unfolding aggregate
aggregate-IsSound w c [] acc d (ok l, e, sound) done =
    let (k, some_k, pos) = (sound l refl).decimals in
    let is_assign : assign acc l ≡ d = ground arith in
    rw⁻¹ is_assign
      (record { positive = (sound l refl).positive; decimals = (k, ground arith, pos) })
aggregate-IsSound w c [] acc d (err x, e, sound) done = ground arith
aggregate-IsSound w c (c' ∷ cs) acc d h done =
    elim (Outcome-cases (step_of (some timeperiod) acc c')) [
      | inl (acc', e) ↦ aggregate-IsSound w c cs acc' d h (ground arith)
      | inr (x, e) ↦ ground arith
    ]

abbrev EndsSoundly : World → List Check → Type 0
EndsSoundly w checks = (cs : List Check) × (c : Check) × (checks ≡ cs ++ c ∷ []) × HasSoundRound w c

checks_with-EndsSoundly :
    (w : World) (source : FeedConfigSource) (t : FeedSourceType) (contract : Contract)
    (decimals : ℕ) (n : Node) (checks : List Check)
    → source.poll ≡ some timeperiod
    → 0 < decimals
    → (checks_with w source t contract decimals n).0 ≡ ok checks
    → EndsSoundly w checks
unfolding checks_with
checks_with-EndsSoundly w source t contract decimals n checks polled pos done =
    let proxied = proxied_checks w source t contract decimals in
    let own = check_own w source t contract decimals in
    let (cs, e, rest) = bind-ok proxied (λ cs. own >>= λ c. pure (cs ++ c ∷ [])) n checks done in
    let (c, e', last) = bind-ok own (λ c. pure (cs ++ c ∷ [])) (proxied n).1 checks rest in
    (
      cs,
      c,
      ground arith,
      check_own-HasSoundRound w source t contract decimals (proxied n).1 c polled pos e',
    )

pending_checks-EndsSoundly :
    (w : World) (source : FeedConfigSource) (t : FeedSourceType) (n : Node) (checks : List Check)
    → source.poll ≡ some timeperiod
    → (pending_checks w source t n).0 ≡ ok checks
    → EndsSoundly w checks
unfolding pending_checks init_contract_cl_aggregator
pending_checks-EndsSoundly w source t n checks polled done =
    let (contract, n') = (init_contract_cl_aggregator source.contract none n) in
    let c : Contract = record {
      address = source.contract;
      abi = abi_of none;
      instance_id = n.calls;
    } in
    let (decimals, e, rest) =
      bind-ok (load_contract_decimals w c) (checks_with w source t c) n' checks done in
    checks_with-EndsSoundly w source t c decimals (load_contract_decimals w c n').1 checks polled
      (load_contract_decimals-positive w c n' decimals e) rest

checks_of-EndsSoundly :
    (w : World) (source : FeedConfigSource) (t : Option FeedSourceType) (n : Node)
    (checks : List Check)
    → source.poll ≡ some timeperiod
    → (checks_of w source t n).0 ≡ ok checks
    → EndsSoundly w checks
unfolding checks_of
checks_of-EndsSoundly w source none n checks polled done = cc
checks_of-EndsSoundly w source (some t) n checks polled done =
    pending_checks-EndsSoundly w source t n checks polled done

aggregated-IsSound :
    (w : World) (source : FeedConfigSource) (checks : List Check) (n : Node) (d : FeedSourceData)
    → source.poll ≡ some timeperiod
    → EndsSoundly w checks
    → (aggregated w source checks n).0 ≡ ok d
    → IsSound w d × (w.validator.valid_data d ≡ true)
unfolding aggregated
aggregated-IsSound w source checks n d polled (cs, c, split, sound) done =
    elim (Outcome-cases (aggregate source.poll (blank w) checks)) [
      | inl (r, e) ↦ (
        aggregate-IsSound w c cs (blank w) d sound (rw⁻¹ split (rw⁻¹ polled (ground arith))),
        ground arith,
      )
      | inr (x, e) ↦ ground arith
    ]

-- A validation of a periodically polled source that succeeds gives data with a positive value and a
-- positive number of decimals, whatever its type and the mode of validation.
pub validate_source_contract-periodic :
    (w : World) (source : FeedConfigSource) (n : Node) (d : FeedSourceData)
    → source.poll ≡ some timeperiod
    → (validate_source_contract w source n).0 ≡ ok d
    → IsSound w d × (w.validator.valid_data d ≡ true)
unfolding validate_source_contract
validate_source_contract-periodic w source n d polled done =
    let run = λ (u : Unit {0}). checks_of w source source.type >>= aggregated w source in
    let (u, valid, rest) =
      bind-ok (guard (w.validator.is_ethereum_address source.contract) invalid_address) run n d
        done in
    let (checks, e, last) =
      bind-ok (checks_of w source source.type) (aggregated w source) n d rest in
    aggregated-IsSound w source checks (checks_of w source source.type n).1 d polled
      (checks_of-EndsSoundly w source source.type n checks polled e) last
