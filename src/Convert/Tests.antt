-- ===== src/Convert/Tests.antt =====
-- Conversions on a concrete runtime.
use chainlink_eth_secret_net.Base.{◌/◌, some, true, ◌≡◌, refl, inr, arith}
use chainlink_eth_secret_net.Data.Records.{JsNumber, float}
use chainlink_eth_secret_net.Eth.Samples.{world}
use chainlink_eth_secret_net.Convert.{
  JsValue, ConversionConfig, of_big, of_text, of_number, Conversions, price, no_options,
  convert_value, divided, finish, in_units, is_number,
}
use chainlink_eth_secret_net.Convert.Cases.{convert_value-divider}

abbrev coarse : JsValue → JsNumber
coarse (of_big v) = world.runtime.plus v
coarse (of_text t) = float 7
coarse (of_number n) = n

abbrev halved : JsNumber → JsNumber
halved (float n) = float (n / 2)
halved n = n

abbrev conversions : Conversions
conversions = record {
  times_1000 = λ v. float 7;
  to_iso_string = λ n. some "2022-01-01T00:00:00.000Z";
  to_utc_string = λ n. "Sat, 01 Jan 2022 00:00:00 GMT";
  plus = coarse;
  format_units = λ v d. some "7.0";
  ethers_commify = λ v. some "7.0";
  finite = λ n. true;
  divide = λ a b. halved a;
  is_truthy = λ n. true;
  utf8_to_hex = λ s. "61";
  hex_to_utf8 = λ s. "a";
}

-- A divider counts for a number with no decimals.
price_divided :
    convert_value conversions
      (of_number (float 8))
      price
      (record no_options { divider = some (float 2) })
    ≡ some (of_number (float 4))
unfolding convert_value in_units finish divided is_number
price_divided = refl

-- A price in eight decimals that is to be halved.
abbrev halving : ConversionConfig
halving = record no_options { decimals = some 8; divider = some (float 2) }

convert_value-divider_example :
    convert_value conversions (of_number (float 8)) price halving
    ≡ convert_value conversions
        (of_number (float 8))
        price
        (record no_options { decimals = some 8 })
convert_value-divider_example =
    convert_value-divider conversions (of_number (float 8)) price halving
      (inr (refl, 8, omega arith, refl))
