-- ===== src/Feed/Statistics.antt =====
-- The route getKakfaStreamStatistics of feed-handler/src/feed-handler.controller.ts.
use chainlink_eth_secret_net.Base.{
  ℕ, zero, suc, String, none, some, false, ◌≡◌, inl, inr, refl, ap, Bool-cases, if◌then◌else◌,
}
use chainlink_eth_secret_net.Config.Service
use chainlink_eth_secret_net.Config.Service.{RelaydConfigService}
use chainlink_eth_secret_net.Http.{HttpException, client_error, not_found}
use chainlink_eth_secret_net.Feed.{http_ok}

-- The route: an exception, an answer whose data is what the same route returned, or the exhaustion of
-- the call stack, which has room for a number of calls.
pub data Statistics : Type 0 where
  thrown : HttpException (Unit {0}) → Statistics
  answered : (status : ℕ) (result : Statistics) → Statistics
  stack_overflow : Statistics

abbrev with_data : Statistics → Statistics
with_data (thrown e) = thrown e
with_data (answered status inner) = answered http_ok (answered status inner)
with_data stack_overflow = stack_overflow

abbrev unavailable : String
unavailable = "Not available in prod mode"

abbrev pub refused : (String → String) → RelaydConfigService → HttpException (Unit {0})
refused trace c =
    client_error trace (Service.app_external_communication_mode c) not_found none
      (some (record { name = "Error"; message = unavailable; stack = trace unavailable }))

unfoldable pub get_kakfa_stream_statistics :
    (String → String) → RelaydConfigService → ℕ → Statistics
get_kakfa_stream_statistics trace c zero = stack_overflow
get_kakfa_stream_statistics trace c (suc room) =
    let inner = get_kakfa_stream_statistics trace c room in
    if Service.in_mode_prod c then thrown (refused trace c) else with_data inner

exhausted :
    (trace : String → String) (c : RelaydConfigService) (room : ℕ)
    → Service.in_mode_prod c ≡ false
    → with_data (get_kakfa_stream_statistics trace c room) ≡ stack_overflow
unfolding get_kakfa_stream_statistics
exhausted trace c zero e = refl
exhausted trace c (suc room) e = rw e (ap with_data (exhausted trace c room e))

-- The route never answers: in the mode for production it throws the error of a client at its first call,
-- and in every other mode it calls itself until the call stack is exhausted, however large that is.
pub get_kakfa_stream_statistics_lem :
    (trace : String → String) (c : RelaydConfigService) (room : ℕ)
    → get_kakfa_stream_statistics trace c (suc room)
      ≡ (if Service.in_mode_prod c then thrown (refused trace c) else stack_overflow)
unfolding get_kakfa_stream_statistics
get_kakfa_stream_statistics_lem trace c room = elim (Bool-cases (Service.in_mode_prod c)) [
  | inl e ↦ rw e refl
  | inr e ↦ rw e (exhausted trace c room e)
]
