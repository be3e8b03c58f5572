-- ===== src/Feed/Startup/Tests.antt =====
-- A start whose table fails, and the route of the statistics.
use chainlink_eth_secret_net.Base.{none, some, true, ◌≡◌, refl, if◌then◌else◌}
use chainlink_eth_secret_net.Config.Service
use chainlink_eth_secret_net.Config.Service.{RelaydConfigService, new}
use chainlink_eth_secret_net.Feed.Startup.{
  FeedLaunch, IsOpen, idle, on_module_init, on_module_init-IsOpen,
}
use chainlink_eth_secret_net.Feed.Statistics.{
  thrown, stack_overflow, refused, get_kakfa_stream_statistics, get_kakfa_stream_statistics_lem,
}

abbrev launch : FeedLaunch
launch = record {
  admin = record { list_topics = none; create = λ topics. none };
  makes_streams = true;
  table = none;
  merge = some tt;
  closes_streams = some tt;
  closes_client = some tt;
}

on_module_init-IsOpen_example : IsOpen (on_module_init launch idle)
on_module_init-IsOpen_example = on_module_init-IsOpen launch refl

-- Nothing is set in the environment.
abbrev config : RelaydConfigService
config = new (record { get_number = λ k d. d; get_boolean = λ k d. d; get_string = λ k d. d })

get_kakfa_stream_statistics_lem_example :
    get_kakfa_stream_statistics (λ m. m) config 9
    ≡ (if Service.in_mode_prod config then thrown (refused (λ m. m) config) else stack_overflow)
get_kakfa_stream_statistics_lem_example = get_kakfa_stream_statistics_lem (λ m. m) config 8
