-- ===== src/Validity/Registered.antt =====
-- Whether the list of a source's handles stays valid when a poller registers or leaves.
use chainlink_eth_secret_net.Base.{
  ◌≤◌, ◌<◌, String, List, [], ◌∷◌, Option, none, some, Bool, true, not, ◌&&◌, length, select,
  string_eq, ◌≡◌, refl, arith,
}
use chainlink_eth_secret_net.Config.Settings.{Settings}
use chainlink_eth_secret_net.Data.SourceEnums.{
  SourcePollingChange, add_periodic, add_listen_event, remove_periodic, remove_listen_event,
}
use chainlink_eth_secret_net.Data.FeedEnums.{FeedSourcePoll, event, timeperiod, feed_source_poll_eq}
use chainlink_eth_secret_net.Data.Records.{FeedSourceHandle, SourcePollingInfo}
use chainlink_eth_secret_net.Eth.Action.{Outcome, ok}
use chainlink_eth_secret_net.Eth.Handles.{
  is_by, is_of, handles, registered, without, review_change, review_source_handling,
}
use chainlink_eth_secret_net.Validity.{Checks, every, nested, valid_handle, valid_polling}

every-select {ℓ} :
    {A : Type ℓ} (p q : A → Bool) (xs : List A) → every p xs ≡ true → every p (select q xs) ≡ true
every-select p q [] h = refl
every-select p q (x ∷ xs) h = ground (arith, every-select p q xs)

length-select {ℓ} : {A : Type ℓ} (q : A → Bool) (xs : List A) → length (select q xs) ≤ length xs
length-select q [] = omega arith
length-select q (x ∷ xs) = ground (arith, length-select q xs)

-- The handles are valid, and there is room for one more.
abbrev HasRoom : Checks → List FeedSourceHandle → Type 0
HasRoom c hs = (every (valid_handle c) hs ≡ true) × (length hs < 20)

abbrev AreValid : Checks → Outcome (List FeedSourceHandle) → Type 0
AreValid c r = (hs : List FeedSourceHandle) → r ≡ ok hs → nested 20 (valid_handle c) hs ≡ true

valid_polling-issuer :
    (c : Checks) (info : SourcePollingInfo) (poll : FeedSourcePoll) (time : String)
    → valid_polling c info ≡ true
    → c.is_date_string time ≡ true
    → valid_handle c (record { handler = info.issuer; type = poll; time = time }) ≡ true
unfolding valid_polling valid_handle
valid_polling-issuer c info poll time valid dated = ground arith

module _ (c : Checks) (settings : Settings) (info : SourcePollingInfo) (time : String)
    (valid : valid_polling c info ≡ true) (dated : c.is_date_string time ≡ true) where
  registered-AreValid :
      (poll : FeedSourcePoll) (old : List FeedSourceHandle)
      → HasRoom c old
      → AreValid c (registered info poll time old)
  registered-AreValid poll old room hs e = ground (arith, valid_polling-issuer c info poll time)

  without-AreValid :
      (poll : FeedSourcePoll) (old : List FeedSourceHandle)
      → HasRoom c old
      → AreValid c (ok (without info.issuer poll old))
  without-AreValid poll old room hs e =
      let stays = λ (h : FeedSourceHandle). not (is_by info.issuer h && is_of poll h) in
      ground (arith, every-select (valid_handle c) stays old, length-select stays old)

  review_change-AreValid :
      (change : Option SourcePollingChange) (old : List FeedSourceHandle)
      → HasRoom c old
      → AreValid c (review_change settings info time old change)
  unfolding review_change
  review_change-AreValid none old room hs e = cc e
  review_change-AreValid (some add_periodic) old room hs e =
      ground (arith, registered-AreValid timeperiod old room hs)
  review_change-AreValid (some add_listen_event) old room hs e =
      ground (arith, registered-AreValid event old room hs)
  review_change-AreValid (some remove_periodic) old room hs e =
      ground (arith, without-AreValid timeperiod old room hs)
  review_change-AreValid (some remove_listen_event) old room hs e =
      ground (arith, without-AreValid event old room hs)

-- The handles of a source stay valid: where a list of fewer than 20 valid handles is changed by a
-- valid polling record, at a date in the ISO format, each handle of the new list is valid and they
-- are at most 20.
pub review_source_handling-valid :
    (c : Checks) (settings : Settings) (time : String) (actual : Option (List FeedSourceHandle))
    (info : SourcePollingInfo) (handle : List FeedSourceHandle)
    → valid_polling c info ≡ true
    → c.is_date_string time ≡ true
    → every (valid_handle c) (handles actual) ≡ true
    → length (handles actual) < 20
    → review_source_handling settings time actual info ≡ ok handle
    → nested 20 (valid_handle c) handle ≡ true
unfolding review_source_handling
review_source_handling-valid c settings time actual info handle valid dated old few done =
    review_change-AreValid c settings info time valid dated info.change (handles actual) (old, few)
      handle done
