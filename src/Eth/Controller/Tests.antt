-- ===== src/Eth/Controller/Tests.antt =====
-- Runs of the handling of source configs.
use chainlink_eth_secret_net.Base.{
  List, [], ◌∷◌, some, false, true, ◌≡◌, ◌≤◌, refl, arith, length, is,
}
use chainlink_eth_secret_net.Data.SourceEnums.{fail, source_status_eq}
use chainlink_eth_secret_net.Data.FeedEnums.{eth_main}
use chainlink_eth_secret_net.Eth.World.{World}
use chainlink_eth_secret_net.Eth.Action.{Node}
use chainlink_eth_secret_net.Eth.Network.{is_compatible}
use chainlink_eth_secret_net.Eth.Samples.{world, source, node}
use chainlink_eth_secret_net.Eth.Controller.Recasts.{circulate, IsForeign}
use chainlink_eth_secret_net.Eth.Controller.Rounds.{
  last_config, circulate-bounded, circulate-end, circulate-endless,
}

abbrev five : List Node
five = node 0 ∷ node 0 ∷ node 0 ∷ node 0 ∷ node 0 ∷ []

foreign : IsForeign (some eth_main) (node 0)
unfolding is_compatible
foreign = ("kovan", refl, refl)

circulate-bounded_example : length (circulate world "ethusd" five source) ≤ 4
circulate-bounded_example =
    circulate-bounded world "ethusd" (λ s. refl) (λ c r. refl) five source (omega arith)
      (foreign, (foreign, (foreign, (foreign, (foreign, tt)))))

abbrev four : List Node
four = node 0 ∷ node 0 ∷ node 0 ∷ node 0 ∷ []

circulate-end_example :
    is (last_config source (circulate world "ethusd" four source)).status fail ≡ true
circulate-end_example =
    circulate-end world "ethusd" (λ s. refl) (λ c r. refl) four source (omega arith)
      (foreign, (foreign, (foreign, (foreign, tt)))) (omega arith)

-- One issue is kept, and four attempts are allowed.
abbrev forgetful : World
forgetful = record world { settings = record (world.settings) { source_issue_max_number = 1 } }

circulate-endless_example :
    (length (circulate forgetful "ethusd" five source) ≡ 5)
    × (is (last_config source (circulate forgetful "ethusd" five source)).status fail ≡ false)
circulate-endless_example =
    circulate-endless forgetful "ethusd" (λ s. refl) (λ c r. refl) five source (omega arith)
      (omega arith) refl (foreign, (foreign, (foreign, (foreign, (foreign, tt)))))

abbrev strict : World
strict = record world { validator = record (world.validator) { valid_source = λ s. false } }
