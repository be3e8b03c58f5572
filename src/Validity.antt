-- ===== src/Validity.antt =====
-- The decorators of class-validator on the classes of common/src/data/feed.data.ts and
-- common/src/data/source.data.ts: which objects of a class its decorators accept. `validate` applies
-- them to instances of the classes; an object that was only parsed has none. In these records a field
-- that is `none` is undefined, and a field of an enumeration holds one of its values.
pub mod Registered
pub mod Unsigned
mod Tests
use chainlink_eth_secret_net.Base.{
  ℕ, ◌*◌, String, List, [], ◌∷◌, Option, none, some, Bool, true, false, not, ◌&&◌, ◌||◌, leb, ltb,
  length, is, ◌==◌, string_eq, if◌then◌else◌,
}
use chainlink_eth_secret_net.Data.SourceEnums.{SourceStatus, source_status_eq}
use chainlink_eth_secret_net.Data.FeedEnums.{
  FeedSourcePoll, FeedSourceEvent, event, timeperiod, custom, feed_source_event_value,
  feed_source_poll_eq, feed_source_event_eq,
}
use chainlink_eth_secret_net.Data.Records.{
  Text, JsNumber, FeedSourceData, ProcessingIssue, FeedSourceHandle, FeedConfigSource,
  FeedTargetData, FeedConfigTarget, FeedConfigData, FeedConfig, FeedSourceConfigWrap,
  FeedSourceDataUpdate, SourcePollingInfo, ContractEvent, RelaydDataUpdate,
}

-- The functions of class-validator behind the decorators. `size` and `text_size` are the length that
-- Length and MaxLength count.
pub record Checks : Type 0 where
  pub size : String → ℕ
  pub text_size : Text → ℕ
  pub is_ethereum_address : String → Bool
  pub is_date_string : String → Bool
  pub is_number : JsNumber → Bool
  pub is_positive : JsNumber → Bool
  pub contains : String → String → Bool

abbrev pub every {ℓ} : {A : Type ℓ} → (A → Bool) → List A → Bool
every p [] = true
every p (x ∷ xs) = p x && every p xs

-- `@IsOptional()`: the other decorators of an undefined field are skipped, `@IsDefined()` too.
abbrev pub optional {ℓ} : {A : Type ℓ} → (A → Bool) → Option A → Bool
optional p none = true
optional p (some x) = p x

-- `@ValidateIf`
abbrev pub validate_if : Bool → Bool → Bool
validate_if condition valid = not condition || valid

abbrev pub between : ℕ → ℕ → ℕ → Bool
between min max n = leb min n && leb n max

-- `@ArrayMaxSize(max) @ValidateNested()`
abbrev pub nested {ℓ} : {A : Type ℓ} → ℕ → (A → Bool) → List A → Bool
nested max p xs = leb (length xs) max && every p xs

module _ (c : Checks) where
  -- `@Length(min, max)`
  abbrev sized : ℕ → ℕ → String → Bool
  sized min max s = between min max (c.size s)

  unfoldable pub valid_source_data : FeedSourceData → Bool
  valid_source_data d =
      optional (sized 1 50) d.path
      && optional (between 0 30) d.decimals
      && (c.is_number d.value && c.is_positive d.value)
      && c.is_date_string d.time
      && optional c.is_number d.round

  unfoldable pub valid_issue : ProcessingIssue → Bool
  valid_issue issue =
      sized 3 40 issue.issuer && optional (λ info. leb (c.text_size info) 255) issue.info

  unfoldable pub valid_handle : FeedSourceHandle → Bool
  valid_handle handle = sized 6 40 handle.handler && c.is_date_string handle.time

  -- What the decorators of a source ask of the fields other than the lists.
  unfoldable pub valid_details : FeedConfigSource → Bool
  unfolding valid_source_data
  valid_details s =
      (c.is_ethereum_address s.contract && sized 41 43 s.contract)
      && optional (λ e. validate_if (is s.poll event) (sized 3 40 (feed_source_event_value e)))
          s.event
      && optional (λ signature. validate_if (is s.event custom) (sized 10 50 signature))
          s.event_signature
      && optional (λ period. validate_if (is s.poll timeperiod) (between 20 (48 * 60 * 60) period))
          s.period
      && optional valid_source_data s.source_data

  unfoldable pub valid_source : FeedConfigSource → Bool
  unfolding valid_issue valid_handle
  valid_source s =
      optional (nested 20 valid_issue) s.issue
      && optional (nested 20 valid_handle) s.handle
      && valid_details s

  valid_target_data : FeedTargetData → Bool
  valid_target_data d = optional (between 0 30) d.decimals && optional (ltb 0) d.time

  abbrev secret : ℕ → ℕ → String → Bool
  secret min max s = sized min max s && c.contains s "secret"

  abbrev is_one_of : String → List String → Bool
  is_one_of s [] = false
  is_one_of s (v ∷ vs) = s == v || is_one_of s vs

  -- A custom type has to be given; the data of a target that is not there are not looked at.
  valid_target : FeedConfigTarget → Bool
  unfolding valid_target_data
  valid_target t =
      optional (secret 46 46) t.contract
      && optional (λ owner. validate_if (is t.status SourceStatus.ok) (secret 44 46 owner)) t.owner
      && optional (λ n. is_one_of n ("scrt-mainnet" ∷ "scrt-holodeck-2" ∷ [])) t.network
      && optional
          (λ type. is_one_of type ("cl-relay" ∷ "price cl-aggregator-relay" ∷ "custom" ∷ [])) t.type
      && validate_if (is t.type "custom")
          (elim t.type_custom [ none ↦ false | some type ↦ sized 8 40 type ])
      && validate_if (is t.status SourceStatus.ok) (optional valid_target_data t.target_data)

  valid_config_data : FeedConfigData → Bool
  valid_config_data d =
      d.type == "price" && (optional (sized 3 6) d.quote && optional (sized 3 6) d.base)

  -- `@IsDate()` on the two dates: no text is a Date object.
  unfoldable pub valid_feed : FeedConfig → Bool
  unfolding valid_source valid_target valid_config_data
  valid_feed f =
      (sized 4 40 f.id && sized 8 80 f.name)
      && optional (λ text. leb (c.size text) 256) f.description
      && secret 44 46 f.creator
      && (optional (λ date. false) f.date_created && optional (λ date. false) f.date_updated)
      && valid_config_data f.config_data
      && valid_source f.source
      && optional valid_target f.target

  pub valid_wrap : FeedSourceConfigWrap → Bool
  unfolding valid_source
  valid_wrap wrap = leb (c.size wrap.feed_id) 40 && optional valid_source wrap.source

  unfoldable pub valid_update : FeedSourceDataUpdate → Bool
  unfolding valid_source_data
  valid_update u =
      leb (c.size u.feed_id) 40
      && optional (λ id. leb (c.size id) 40) u.source_id
      && optional valid_source_data u.source
      && optional (λ info. leb (c.text_size info) 255) u.info

  unfoldable pub valid_polling : SourcePollingInfo → Bool
  valid_polling p =
      (c.is_ethereum_address p.source && sized 41 43 p.source)
      && sized 6 40 p.issuer
      && elim p.change [ none ↦ false | some change ↦ true ]
      && optional (λ info. between 3 255 (c.text_size info)) p.info

  pub valid_event : ContractEvent → Bool
  valid_event e = c.is_number e.current && ltb 0 e.round && c.is_date_string e.updated_at

  -- OraclePriceData, a class with the fields and the decorators of the data of a source, and some more.
  pub valid_oracle_price : FeedSourceData → Bool
  unfolding valid_source_data
  valid_oracle_price d = optional (between 1 30) d.decimals && valid_source_data d

  abbrev given {ℓ} : {A : Type ℓ} → (A → Bool) → Option A → Bool
  given p none = false
  given p (some x) = p x

  -- Each of the two contracts has to be there where the other is not.
  pub valid_data_update : RelaydDataUpdate → Bool
  valid_data_update u =
      validate_if (not (given (λ t. true) u.target)) (given c.is_ethereum_address u.source)
      && validate_if (not (given (λ s. true) u.source)) (given (secret 46 46) u.target)
      && given (λ v. true) u.value
      && c.is_date_string u.time
