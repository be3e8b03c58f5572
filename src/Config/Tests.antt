-- ===== src/Config/Tests.antt =====
-- A configuration with nothing set in the environment.
use chainlink_eth_secret_net.Base.{false, string_eq, ◌≡◌, refl, inl}
use chainlink_eth_secret_net.Config.Service
use chainlink_eth_secret_net.Config.Service.{ConfigService, new}
use chainlink_eth_secret_net.Config.Settings.{settings_of}
use chainlink_eth_secret_net.Config.Ranges.{AreInRange, settings_of-AreInRange, new-permissions}

abbrev unset : ConfigService
unset = record { get_number = λ k d. d; get_boolean = λ k d. d; get_string = λ k d. d }

settings_of-AreInRange_example : AreInRange (settings_of (new unset))
settings_of-AreInRange_example = settings_of-AreInRange unset (λ k d. inl refl)

new-permissions_example :
    (Service.source_polling_allow_multiple_by_same_issuer (new unset) ≡ false)
    × (Service.source_polling_allow_multiple_type_by_same_issuer (new unset) ≡ false)
new-permissions_example = new-permissions unset (λ k d. refl)
