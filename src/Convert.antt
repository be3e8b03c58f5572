-- ===== src/Convert.antt =====
-- The conversions of common/src/utils/conversion.ts (ConvertContractUtils), whole: convertValue with
-- all its options, and convertString. A result of `none` is an error thrown by a library. The models
-- of the Ethereum client use the two cases of convertValue that it asks for (Eth/Contracts).
pub mod Cases
mod Tests
use chainlink_eth_secret_net.Base.{
  ℕ, String, Option, none, some, Bool, true, false, ◌&&◌, ltb, if◌then◌else◌, ◌==◌, string_eq,
}
use chainlink_eth_secret_net.Base.Int.{ℤ}
use chainlink_eth_secret_net.Data.Records.{JsNumber}

-- `default` is another name of date_iso.
pub data ValueTypeDate : Type 0 where
  date_epoch_ms date_iso date_utc date_raw : ValueTypeDate

pub data ValueType : Type 0 where
  price date number : ValueType

pub record ConversionConfig : Type 0 where
  pub decimals : Option ℕ
  pub divider : Option JsNumber
  pub commify : Bool
  pub date : Option ValueTypeDate

-- What a caller passes: an object of class BigNumber, a text or a number. What it gets is a number or
-- a text.
pub data JsValue : Type 0 where
  of_big : ℤ → JsValue
  of_text : String → JsValue
  of_number : JsNumber → JsValue

-- The runtime and the libraries: `v * 1000`, the texts of a date in milliseconds, `+v`, the
-- functions of ethers, isNumber of class-validator on a number, `a / b`, whether a number is
-- neither zero nor not-a-number, and Buffer's two conversions.
pub record Conversions : Type 0 where
  pub times_1000 : JsValue → JsNumber
  pub to_iso_string : JsNumber → Option String
  pub to_utc_string : JsNumber → String
  pub plus : JsValue → JsNumber
  pub format_units : JsValue → ℕ → Option String
  pub ethers_commify : JsValue → Option String
  pub finite : JsNumber → Bool
  pub divide : JsNumber → JsNumber → JsNumber
  pub is_truthy : JsNumber → Bool
  pub utf8_to_hex : String → String
  pub hex_to_utf8 : String → String

-- `isNumber(v)`: no text and no object is a number.
unfoldable pub is_number : Conversions → JsValue → Bool
is_number c (of_big _) = false
is_number c (of_text _) = false
is_number c (of_number n) = c.finite n

-- No converter: no option of it is set.
abbrev pub no_options : ConversionConfig
no_options = record { decimals = none; divider = none; commify = false; date = none }

-- `+result`, divided where a divider counts.
unfoldable pub divided : Conversions → Option JsNumber → JsValue → JsNumber
unfolding is_number
divided c none result = c.plus result
divided c (some divider) result =
    if c.is_truthy divider && is_number c result
    then c.divide (c.plus result) divider
    else c.plus result

abbrev pub as_text : Option String → Option JsValue
as_text none = none
as_text (some text) = some (of_text text)

-- The end that prices and numbers share.
unfoldable pub finish : Conversions → ConversionConfig → JsValue → Option JsValue
unfolding divided
finish c options result =
    if options.commify
    then as_text (c.ethers_commify result)
    else some (of_number (divided c options.divider result))

unfoldable pub convert_date_value : Conversions → JsValue → ValueTypeDate → Option JsValue
convert_date_value c value date_epoch_ms = some (of_number (c.times_1000 value))
convert_date_value c value date_iso = as_text (c.to_iso_string (c.times_1000 value))
convert_date_value c value date_utc = some (of_text (c.to_utc_string (c.times_1000 value)))
convert_date_value c value date_raw = some (of_number (c.plus value))

abbrev or_default : Option ValueTypeDate → ValueTypeDate
or_default none = date_iso
or_default (some format) = format

-- `formatUnits`, where there are decimals.
unfoldable pub in_units : Conversions → Option ℕ → JsValue → Option JsValue
in_units c none value = some value
in_units c (some decimals) value =
    if ltb 0 decimals then as_text (c.format_units value decimals) else some value

-- What a price does with the result of formatUnits.
abbrev pub price_end : Conversions → ConversionConfig → Option JsValue → Option JsValue
price_end c options none = none
price_end c options (some result) = finish c options result

unfoldable pub convert_value : Conversions → JsValue → ValueType → ConversionConfig → Option JsValue
unfolding convert_date_value in_units finish
convert_value c value date options = convert_date_value c value (or_default options.date)
convert_value c value price options = price_end c options (in_units c options.decimals value)
convert_value c value number options = finish c options value

-- Any format but 'utf8' is taken for hexadecimal digits.
unfoldable pub convert_string : Conversions → String → String → String
convert_string c str from = if from == "utf8" then c.utf8_to_hex str else c.hex_to_utf8 str
