-- ===== src/Http/Tests.antt =====
-- Two errors that are answered alike.
use chainlink_eth_secret_net.Base.{ℕ, ◌≡◌, refl}
use chainlink_eth_secret_net.Http.{Failing, deny}
use chainlink_eth_secret_net.Http.Filter.{
  Request, http, other, catch_exception, catch_exception-private,
}

abbrev error : Failing
error = record { name = "Error"; message = "no table"; stack = "at createFeed" }

abbrev request : Request ℕ
request = record { method = "GET"; path = "/feed/ethusd"; rest = 0 }

catch_exception-private_example :
    catch_exception "standard" "t1" request (other error)
    ≡ catch_exception "standard" "t2"
        (record request { rest = 1 })
        (http "Error" (record { response = (deny {Input = ℕ}).response; code = 500 }))
catch_exception-private_example =
    catch_exception-private "standard" "t1" "t2" request (record request { rest = 1 }) (other error)
      (http "Error" (record { response = (deny {Input = ℕ}).response; code = 500 })) refl refl refl
      refl refl
