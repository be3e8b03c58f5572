-- ===== src/Base/Int.antt =====
-- The values of a contract's `int256`, which the program converts and does not compute with.
use Prim.Native.Nat.{ℕ, ◌-◌}
use chainlink_eth_secret_net.Base.Tests.{leb, if◌then◌else◌}

-- `negsuc n` is -(n + 1).
pub data ℤ : Type 0 where
  pos : ℕ → ℤ
  negsuc : ℕ → ℤ

-- a - b, as an integer.
abbrev pub sub_ℕ : ℕ → ℕ → ℤ
sub_ℕ a b = if leb b a then pos (a - b) else negsuc (b - a - 1)
