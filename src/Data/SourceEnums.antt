-- ===== src/Data/SourceEnums.antt =====
-- The enumerations of common/src/data/source.data.ts, each with the value it has on the wire and the
-- test `===`.
use chainlink_eth_secret_net.Base.{ℕ, String, Bool, true, false, ◌≡◌, ◌↔◌, Eq, arith}

-- Reason for casting a contract update.
pub data SourceCastReason : Type 0 where
  handling_success handling_failed failure_network_not_matching handling_validation_partial
        handling_validation_fail :
      SourceCastReason

abbrev pub source_cast_reason_value : SourceCastReason → String
source_cast_reason_value handling_success = "contract.handling.success"
source_cast_reason_value handling_failed = "contract.handling.fail"
source_cast_reason_value failure_network_not_matching = "failure.network.incompatible"
source_cast_reason_value handling_validation_partial = "contract.handling.valid.partial"
source_cast_reason_value handling_validation_fail = "contract.handling.invalid"

abbrev pub source_cast_reason_beq : SourceCastReason → SourceCastReason → Bool
source_cast_reason_beq handling_success handling_success = true
source_cast_reason_beq handling_failed handling_failed = true
source_cast_reason_beq failure_network_not_matching failure_network_not_matching = true
source_cast_reason_beq handling_validation_partial handling_validation_partial = true
source_cast_reason_beq handling_validation_fail handling_validation_fail = true
source_cast_reason_beq _ _ = false

pub source_cast_reason_beq_iff :
    (a b : SourceCastReason) → (source_cast_reason_beq a b ≡ true) ↔ (a ≡ b)
source_cast_reason_beq_iff a b = ground arith

instance abbrev pub source_cast_reason_eq : Eq SourceCastReason
source_cast_reason_eq = record {
  same = source_cast_reason_beq;
  same_iff = source_cast_reason_beq_iff;
}

-- Statuses of a source; the values are HTTP statuses.
pub data SourceStatus : Type 0 where
  ini ok partial fail : SourceStatus

abbrev pub source_status_value : SourceStatus → ℕ
source_status_value ini = 100
source_status_value ok = 200
source_status_value partial = 206
source_status_value fail = 405

abbrev pub source_status_beq : SourceStatus → SourceStatus → Bool
source_status_beq ini ini = true
source_status_beq ok ok = true
source_status_beq partial partial = true
source_status_beq fail fail = true
source_status_beq _ _ = false

pub source_status_beq_iff : (a b : SourceStatus) → (source_status_beq a b ≡ true) ↔ (a ≡ b)
source_status_beq_iff a b = ground arith

instance abbrev pub source_status_eq : Eq SourceStatus
source_status_eq = record { same = source_status_beq; same_iff = source_status_beq_iff }

-- Why a data value is reported.
pub data SourceDataUpdateReason : Type 0 where
  data_change periodic : SourceDataUpdateReason

abbrev pub source_data_update_reason_value : SourceDataUpdateReason → String
source_data_update_reason_value data_change = "polling.data.change"
source_data_update_reason_value periodic = "polling.periodic.check"

abbrev pub source_data_update_reason_beq : SourceDataUpdateReason → SourceDataUpdateReason → Bool
source_data_update_reason_beq data_change data_change = true
source_data_update_reason_beq periodic periodic = true
source_data_update_reason_beq _ _ = false

pub source_data_update_reason_beq_iff :
    (a b : SourceDataUpdateReason) → (source_data_update_reason_beq a b ≡ true) ↔ (a ≡ b)
source_data_update_reason_beq_iff a b = ground arith

instance abbrev pub source_data_update_reason_eq : Eq SourceDataUpdateReason
source_data_update_reason_eq = record {
  same = source_data_update_reason_beq;
  same_iff = source_data_update_reason_beq_iff;
}

-- A change in the polling of a source.
pub data SourcePollingChange : Type 0 where
  add_periodic add_listen_event remove_periodic remove_listen_event : SourcePollingChange

abbrev pub source_polling_change_value : SourcePollingChange → String
source_polling_change_value add_periodic = "polling.add.period"
source_polling_change_value add_listen_event = "polling.add.event"
source_polling_change_value remove_periodic = "polling.remove.period"
source_polling_change_value remove_listen_event = "polling.remove.event"

abbrev pub source_polling_change_beq : SourcePollingChange → SourcePollingChange → Bool
source_polling_change_beq add_periodic add_periodic = true
source_polling_change_beq add_listen_event add_listen_event = true
source_polling_change_beq remove_periodic remove_periodic = true
source_polling_change_beq remove_listen_event remove_listen_event = true
source_polling_change_beq _ _ = false

pub source_polling_change_beq_iff :
    (a b : SourcePollingChange) → (source_polling_change_beq a b ≡ true) ↔ (a ≡ b)
source_polling_change_beq_iff a b = ground arith

instance abbrev pub source_polling_change_eq : Eq SourcePollingChange
source_polling_change_eq = record {
  same = source_polling_change_beq;
  same_iff = source_polling_change_beq_iff;
}
