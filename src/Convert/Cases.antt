-- ===== src/Convert/Cases.antt =====
-- The divider of convertValue, which no caller passes.
use chainlink_eth_secret_net.Base.{
  ℕ, none, some, false, ltb, ◌<◌, ◌≡◌, ◌≢◌, ◌⊎◌, inl, inr, Bool-cases, refl, arith,
}
use chainlink_eth_secret_net.Data.Records.{JsNumber}
use chainlink_eth_secret_net.Convert.{
  ValueType, price, date, number, ConversionConfig, as_text, price_end, JsValue, of_big, of_text,
  of_number, Conversions, is_number, divided, finish, in_units, convert_value,
}

abbrev undivided : ConversionConfig → ConversionConfig
undivided options = record options { divider = none }

finish-undivided :
    (c : Conversions) (options : ConversionConfig) (v : JsValue)
    → is_number c v ≡ false
    → finish c options v ≡ finish c (undivided options) v
unfolding finish divided
finish-undivided c options v h =
    elim options.divider
      as (λ x. finish c (record options { divider = x }) v ≡ finish c (undivided options) v) [
        | none ↦ refl
        | some divider ↦ rw h (ground arith)
      ]

no_number-is_number :
    (c : Conversions) (v : JsValue) → ((n : JsNumber) → v ≢ of_number n) → is_number c v ≡ false
unfolding is_number
no_number-is_number c (of_big v) h = refl
no_number-is_number c (of_text v) h = refl
no_number-is_number c (of_number n) h = absurd (h n refl)

scaled-undivided :
    (c : Conversions) (options : ConversionConfig) (v : JsValue) (d : ℕ)
    → (0 < d) ⊎ (is_number c v ≡ false)
    → price_end c options (in_units c (some d) v)
      ≡ price_end c (undivided options) (in_units c (some d) v)
unfolding in_units is_number
scaled-undivided c options v d h = elim (Bool-cases (ltb 0 d)) [
  | inl e ↦
      rw e
        (elim (c.format_units v d)
          as (λ x. price_end c options (as_text x) ≡ price_end c (undivided options) (as_text x)) [
            | none ↦ refl
            | some text ↦ finish-undivided c options (of_text text) refl
          ])
  | inr e ↦ rw e (finish-undivided c options v (ground arith))
]

-- A divider changes no result where the value is not a number, and no price where decimals are
-- given: the text of formatUnits is not a number either.
pub convert_value-divider :
    (c : Conversions) (v : JsValue) (type : ValueType) (options : ConversionConfig)
    → ((n : JsNumber) → v ≢ of_number n)
      ⊎ ((type ≡ price) × (d : ℕ) × (0 < d) × (options.decimals ≡ some d))
    → convert_value c v type options ≡ convert_value c v type (undivided options)
unfolding convert_value in_units
convert_value-divider c v date options h = refl
convert_value-divider c v number options (inl h) =
    finish-undivided c options v (no_number-is_number c v h)
convert_value-divider c v number options (inr (e, d, pos, h)) = cc e
convert_value-divider c v price options (inl h) =
    elim options.decimals
      as (λ x.
        price_end c options (in_units c x v) ≡ price_end c (undivided options) (in_units c x v)) [
          | none ↦ finish-undivided c options v (no_number-is_number c v h)
          | some d ↦ scaled-undivided c options v d (inr (no_number-is_number c v h))
        ]
convert_value-divider c v price options (inr (e, d, pos, some_decimals)) =
    rw some_decimals (scaled-undivided c options v d (inl pos))
