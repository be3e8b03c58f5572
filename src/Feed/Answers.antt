-- ===== src/Feed/Answers.antt =====
-- What a request for a feed, and the merge of a source, promise.
use chainlink_eth_secret_net.Base.{
  ℕ, suc, ◌+◌, ◌≤◌, String, ◌∷◌, Option, none, some, true, ◌≡◌, refl, ◌⊎◌, inl, inr, arith,
  Bool-cases, Option-cases,
}
use chainlink_eth_secret_net.Data.Channels.{feed_config, source_config}
use chainlink_eth_secret_net.Data.Records.{FeedConfig}
use chainlink_eth_secret_net.Feed.{
  FeedPayload, FeedCast, FeedWorld, FeedNode, fulfilled, RelayActionResult, http_ok,
  http_not_acceptable, halt_ms, is_halted, write_feed_to_stream, load_feed_from_table,
  cast_and_answer, create_or_resume, create_feed, add_feed_price,
}

-- The two records that announce a feed.
abbrev pub feed_cast : FeedConfig → FeedCast
feed_cast config = record {
  topic = feed_config;
  key = config.id;
  value = FeedPayload.of_feed config;
}

abbrev pub source_cast : FeedConfig → FeedCast
source_cast config = record {
  topic = source_config;
  key = config.id;
  value = FeedPayload.of_source (config.source);
}

abbrev pub declined : RelayActionResult
declined = record { status = http_not_acceptable; data_feed = none }

-- The date of creation: that of the update for a new feed, and the one of the request for a known one.
abbrev pub created_at : Option FeedConfig → String → FeedConfig → Option String
created_at none updated config = some updated
created_at (some known) updated config = config.date_created

-- The answer tells of the feed of the request, with its dates, announced by its two records.
abbrev pub IsAnnounced :
    Option FeedConfig → FeedConfig → RelayActionResult → FeedNode → FeedNode → Type 0
IsAnnounced known config result n n' =
    (f : FeedConfig) × (updated : String) × (f ≡ record config {
      date_created = created_at known updated config;
      date_updated = some updated;
    })
    × (result ≡ record { status = http_ok; data_feed = some f })
    × (n'.sent ≡ source_cast f ∷ feed_cast f ∷ n.sent)

cast_and_answer-IsAnnounced :
    (w : FeedWorld) (known : Option FeedConfig) (config : FeedConfig) (updated : String)
    (n m : FeedNode) (result : RelayActionResult)
    → m.sent ≡ n.sent
    → let f = record config {
      date_created = created_at known updated config;
      date_updated = some updated;
    } in
      (cast_and_answer w f m).0 ≡ fulfilled result
      → IsAnnounced known config result n (cast_and_answer w f m).1
unfolding cast_and_answer write_feed_to_stream
cast_and_answer-IsAnnounced w known config updated n m result same done =
    let f : FeedConfig = record config {
      date_created = created_at known updated config;
      date_updated = some updated;
    } in
    (f, updated, refl, ground arith, ground arith)

-- The request was declined and nothing written, the feed being known, or the feed was announced.
abbrev pub IsSettled :
    Option FeedConfig → FeedConfig → RelayActionResult → FeedNode → FeedNode → Type 0
IsSettled known config result n n' =
    ((running : FeedConfig) × (known ≡ some running) × (result ≡ declined) × (n'.sent ≡ n.sent))
    ⊎ IsAnnounced known config result n n'

-- The request was settled by what the table had of the feed.
abbrev pub IsAnswered : FeedWorld → FeedConfig → RelayActionResult → FeedNode → FeedNode → Type 0
IsAnswered w config result n n' =
    (known : Option FeedConfig) × (w.feed_table n.calls config.id ≡ some known)
    × IsSettled known config result n n'

create_or_resume-IsSettled :
    (w : FeedWorld) (config : FeedConfig) (known : Option FeedConfig) (n m : FeedNode)
    (result : RelayActionResult)
    → m.sent ≡ n.sent
    → (create_or_resume w config known m).0 ≡ fulfilled result
    → IsSettled known config result n (create_or_resume w config known m).1
unfolding create_or_resume
create_or_resume-IsSettled w config none n m result same = λ done. inr (
    cast_and_answer-IsAnnounced w none config (w.iso_now m.calls) n
      (record m { calls = suc m.calls }) result same done)
create_or_resume-IsSettled w config (some known) n m result same =
    elim (Bool-cases (is_halted w (w.now m.calls) known)) [
      | inl halted ↦ rw halted (λ done. inr (
          cast_and_answer-IsAnnounced w (some known) config (w.iso_now (suc m.calls)) n
            (record m { calls = suc (suc m.calls) }) result same done))
      | inr running ↦ rw running (λ done. inl (known, refl, ground arith, same))
    ]

pub create_feed-IsAnswered :
    (w : FeedWorld) (config : FeedConfig) (n : FeedNode) (result : RelayActionResult)
    → (create_feed w config n).0 ≡ fulfilled result
    → IsAnswered w config result n (create_feed w config n).1
unfolding create_feed load_feed_from_table
create_feed-IsAnswered w config n result = elim (Option-cases (w.feed_table n.calls config.id)) [
  | inl e ↦ rw e (λ done. ground arith)
  | inr (known, e) ↦ rw e (λ done. (
    known,
    refl,
    create_or_resume-IsSettled w config known n (record n { calls = suc n.calls }) result refl done,
  ))
]

-- An answer to a request is never an empty promise: the request was valid, the table was read, and
-- either the feed was known, the request was declined and nothing was written, or the config of the
-- feed and that of its source were both written, in this order, and the feed is the one of the answer.
-- It is the feed of the request in all fields but the dates: that of its update is set, and that of
-- its creation is set to the same where the feed was not known, and left as requested where it was.
pub add_feed_price-IsAnswered :
    (w : FeedWorld) (config : FeedConfig) (n : FeedNode) (result : RelayActionResult)
    → (add_feed_price w config n).0 ≡ fulfilled result
    → (w.valid_feed config ≡ true) × IsAnswered w config result n (add_feed_price w config n).1
unfolding add_feed_price
add_feed_price-IsAnswered w config n result = elim (Bool-cases (w.valid_feed config)) [
  | inl valid ↦ rw valid (λ done. (refl, create_feed-IsAnswered w config n result (ground arith)))
  | inr invalid ↦ rw invalid (λ done. ground arith)
]

-- A request for a feed that is known, and was updated within the last three minutes, is declined and
-- nothing is written.
pub create_feed-declined :
    (w : FeedWorld) (config known : FeedConfig) (n : FeedNode) (date : String) (t : ℕ)
    → w.feed_table n.calls config.id ≡ some (some known)
    → known.date_updated ≡ some date
    → w.parse_date date ≡ some t
    → w.now (suc n.calls) ≤ t + halt_ms
    → ((create_feed w config n).0 ≡ fulfilled declined) × ((create_feed w config n).1.sent ≡ n.sent)
unfolding create_feed load_feed_from_table create_or_resume is_halted
create_feed-declined w config known n date t found updated parse recent = rw found (ground arith)
