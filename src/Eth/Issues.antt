-- ===== src/Eth/Issues.antt =====
-- The reports of issues that a source carries: countIssueInLastRow and issueSourceProcessingNote of
-- eth-client/src/eth-connect.service.ts.
pub mod Rows
mod Tests
use chainlink_eth_secret_net.Base.{
  ℕ, ◌+◌, String, List, [], ◌∷◌, Option, none, some, Bool, ltb, length, take, pop, count, ◌==◌,
  if◌then◌else◌,
}
use chainlink_eth_secret_net.Config.Settings.{Settings}
use chainlink_eth_secret_net.Data.SourceEnums.{SourceCastReason, source_cast_reason_eq}
use chainlink_eth_secret_net.Data.Records.{Text, FeedConfigSource, ProcessingIssue}

abbrev pub has_type : SourceCastReason → ProcessingIssue → Bool
has_type issue_type issue = issue.type == issue_type

-- The `return` of the callback of `forEach` ends the callback, not the loop.
pub count_issue_in_last_row : FeedConfigSource → SourceCastReason → ℕ
count_issue_in_last_row source_config issue_type = elim source_config.issue [
  | none ↦ 0
  | some issue ↦ count (has_type issue_type) issue
]

-- `info?.substr(0, 512)`
abbrev pub truncated : Option Text → Option Text
truncated none = none
truncated (some t) = some (take 512 t)

-- The issues with room for one more: `length > max - 1` is written without the subtraction.
abbrev pub room : ℕ → Option (List ProcessingIssue) → List ProcessingIssue
room limit none = []
room limit (some issue) = if ltb limit (length issue + 1) then pop issue else issue

-- The note, and the source that carries it as its first issue.
unfoldable pub issue_source_processing_note :
    Settings
    → String
    → FeedConfigSource
    → SourceCastReason
    → Option Text
    → FeedConfigSource × ProcessingIssue
issue_source_processing_note settings service_id source reason info =
    let note : ProcessingIssue = record {
      issuer = service_id;
      type = reason;
      info = truncated info;
    } in
    (
      record source { issue = some (note ∷ room settings.source_issue_max_number source.issue) },
      note,
    )
