-- ===== src/Kafka/Streams.antt =====
-- The tables of the Kafka Streams library, which the services fill from a topic and read by key.
use chainlink_eth_secret_net.Base.{String, Option, none, some, ◌≡◌, ◌==◌, string_eq, if◌then◌else◌}

-- A table keeps the last value of a key.
pub record KTable (V : Type 0) : Type 1 where
  pub Storage : Type 0
  pub empty : Storage
  pub put : String → V → Storage → Storage
  pub get : String → Storage → Option V
  pub get-empty : (k : String) → get k empty ≡ none
  pub get-put :
      (k j : String) (v : V) (s : Storage)
      → get k (put j v s) ≡ (if j == k then some v else get k s)
