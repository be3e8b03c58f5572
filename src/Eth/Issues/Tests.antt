-- ===== src/Eth/Issues/Tests.antt =====
-- Notes on a source.
use chainlink_eth_secret_net.Base.{◌+◌, [], ◌∷◌, none, some, ◌≡◌, count}
use chainlink_eth_secret_net.Data.SourceEnums.{handling_failed, handling_success}
use chainlink_eth_secret_net.Data.Records.{FeedConfigSource, ProcessingIssue}
use chainlink_eth_secret_net.Eth.Samples.{source}
use chainlink_eth_secret_net.Eth.Issues.{has_type, count_issue_in_last_row}
use chainlink_eth_secret_net.Eth.Issues.Rows.{
  issues, last_row, after_row, count_issue_in_last_row_lem,
}

abbrev failure : ProcessingIssue
failure = record { issuer = "eth-client-1"; type = handling_failed; info = none }

abbrev success : ProcessingIssue
success = record { issuer = "eth-client-1"; type = handling_success; info = none }

abbrev retried : FeedConfigSource
retried = record source { issue = some (failure ∷ success ∷ failure ∷ []) }

count_issue_in_last_row_lem_example :
    count_issue_in_last_row retried handling_failed
    ≡ last_row handling_failed (issues retried)
      + count (has_type handling_failed) (after_row handling_failed (issues retried))
count_issue_in_last_row_lem_example = count_issue_in_last_row_lem retried handling_failed
