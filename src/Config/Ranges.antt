-- ===== src/Config/Ranges.antt =====
-- What the services find in the configuration (common/src/config/relayd.config.ts).
use chainlink_eth_secret_net.Base.{
  ℕ, Bool, true, false, some, is, string_eq, ◌≤◌, ◌≡◌, ◌⊎◌, arith, inl, inr,
}
use chainlink_eth_secret_net.Config.Defaults.{
  NumberKey, BooleanKey, StringKey, number_range, prod, dev_local, config_run_mode_value,
  prod_number, dev_number,
}
use chainlink_eth_secret_net.Config.Service
use chainlink_eth_secret_net.Config.Service.{ConfigService, new}
use chainlink_eth_secret_net.Config.Settings.{Settings, settings_of}

abbrev pub IsInRange : NumberKey → ℕ → Type 0
IsInRange k n = ((number_range k).0 ≤ n) × (n ≤ (number_range k).1)

prod_number-IsInRange : (k : NumberKey) → IsInRange k (prod_number k)
prod_number-IsInRange k = ground arith

-- When the environment leaves both permissions of multiple polling unset, several pollings by one
-- handler are denied in every run mode, the one for development included, and polling in several
-- ways is allowed exactly in the mode `dev.local`.
pub new-permissions :
    (c : ConfigService)
    → ((k : BooleanKey) (d : Bool) → c.get_boolean k d ≡ d)
    → (Service.source_polling_allow_multiple_by_same_issuer (new c) ≡ false)
      × (Service.source_polling_allow_multiple_type_by_same_issuer (new c)
          ≡ is
              (c.get_string StringKey.app_run_mode (some (config_run_mode_value prod)))
              (config_run_mode_value dev_local))
unfolding new Service.source_polling_allow_multiple_by_same_issuer
    Service.source_polling_allow_multiple_type_by_same_issuer
new-permissions c unset = ground (
  arith,
  unset BooleanKey.source_polling_allow_multiple_by_same_handler false,
  unset BooleanKey.source_polling_allow_multiple_type_by_same_handler false,
  unset BooleanKey.source_polling_allow_multiple_type_by_same_handler true,
)

-- The numbers of the settings lie in their declared ranges.
pub record AreInRange (s : Settings) : Type 0 where
  pub recast_network :
      IsInRange NumberKey.max_recast_network_source_not_matching
        s.max_recast_network_source_not_matching
  pub last_update :
      IsInRange NumberKey.source_data_last_update_max_days s.source_data_last_update_max_days
  pub recast_handling :
      IsInRange NumberKey.max_recast_source_handling_fail s.max_recast_source_handling_fail
  pub polling_errors :
      IsInRange NumberKey.max_successive_error_to_stop_polling
        s.max_successive_error_to_stop_polling
  pub issues : IsInRange NumberKey.source_issue_max_number s.source_issue_max_number
  pub listeners : IsInRange NumberKey.source_nb_event_listener s.source_nb_event_listener
  pub queriers : IsInRange NumberKey.source_nb_periodic_querier s.source_nb_periodic_querier

dev_number-eq-prod_number : (k : NumberKey) → dev_number k ≡ prod_number k
dev_number-eq-prod_number k = ground arith

-- Both classes of defaults hold the same numbers.
new-number : (c : ConfigService) (k : NumberKey) → (new c).defaults.number k ≡ prod_number k
unfolding new
new-number c k = ground (arith, dev_number-eq-prod_number k)

number_of-IsInRange :
    (c : ConfigService)
    → ((k : NumberKey) (d : ℕ) → (c.get_number k d ≡ d) ⊎ IsInRange k (c.get_number k d))
    → (k : NumberKey) → IsInRange k (c.get_number k ((new c).defaults.number k))
number_of-IsInRange c set k =
    rw (new-number c k)
      (elim (set k (prod_number k)) [ inl e ↦ rw e (prod_number-IsInRange k) | inr h ↦ h ])

-- If each number that the environment sets lies in its declared range, and the others are the
-- defaults, then the numbers of the settings lie in their ranges, in every run mode.
pub settings_of-AreInRange :
    (c : ConfigService)
    → ((k : NumberKey) (d : ℕ) → (c.get_number k d ≡ d) ⊎ IsInRange k (c.get_number k d))
    → AreInRange (settings_of (new c))
unfolding settings_of new Service.max_recast_network_source_not_matching
    Service.source_data_last_update_max_days Service.max_recast_source_handling_fail
    Service.max_successive_error_to_stop_polling Service.source_issue_max_number
    Service.source_nb_event_listener Service.source_nb_periodic_querier
settings_of-AreInRange c set = record {
  recast_network = number_of-IsInRange c set NumberKey.max_recast_network_source_not_matching;
  last_update = number_of-IsInRange c set NumberKey.source_data_last_update_max_days;
  recast_handling = number_of-IsInRange c set NumberKey.max_recast_source_handling_fail;
  polling_errors = number_of-IsInRange c set NumberKey.max_successive_error_to_stop_polling;
  issues = number_of-IsInRange c set NumberKey.source_issue_max_number;
  listeners = number_of-IsInRange c set NumberKey.source_nb_event_listener;
  queriers = number_of-IsInRange c set NumberKey.source_nb_periodic_querier;
}
