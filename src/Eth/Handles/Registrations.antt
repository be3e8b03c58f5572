-- ===== src/Eth/Handles/Registrations.antt =====
-- Registration and removal of pollers.
use chainlink_eth_secret_net.Base.{
  ℕ, ◌≤◌, ◌<◌, String, List, [], ◌∷◌, Option, some, Bool, true, false, ◌&&◌, ◌≡◌, refl, ap, ltb,
  count, includes, ◌==◌, string_eq, if◌then◌else◌, arith, count-select_none, count-select_all,
  Bool-cases, inl, inr, str_eq_iff,
}
use chainlink_eth_secret_net.Config.Settings.{Settings}
use chainlink_eth_secret_net.Data.SourceEnums.{
  SourcePollingChange, add_periodic, add_listen_event, remove_periodic, remove_listen_event,
}
use chainlink_eth_secret_net.Data.FeedEnums.{
  FeedSourcePoll, event, timeperiod, feed_source_poll_eq, feed_source_poll_beq_iff,
}
use chainlink_eth_secret_net.Data.Records.{FeedSourceHandle, SourcePollingInfo}
use chainlink_eth_secret_net.Eth.World.{
  Failure, polled_by_event, polled_by_period, not_polled_by_event, not_polled_by_period,
}
use chainlink_eth_secret_net.Eth.Action.{ok, err}
use chainlink_eth_secret_net.Eth.Handles.{
  is_by, is_of, handles, polled_by, without, review_source_handling,
}

-- The change that registers a poller, and the one that removes it.
abbrev pub addition : FeedSourcePoll → SourcePollingChange
addition event = add_listen_event
addition timeperiod = add_periodic

abbrev pub removal : FeedSourcePoll → SourcePollingChange
removal event = remove_listen_event
removal timeperiod = remove_periodic

abbrev is_at : String → FeedSourcePoll → FeedSourceHandle → Bool
is_at issuer poll handle = is_by issuer handle && is_of poll handle

-- How often a handler is registered in a way.
abbrev pub registrations : String → FeedSourcePoll → List FeedSourceHandle → ℕ
registrations issuer poll = count (is_at issuer poll)

pub includes-polled_by :
    (issuer : String) (poll : FeedSourcePoll) (l : List FeedSourceHandle)
    → includes (polled_by issuer l) poll ≡ ltb 0 (registrations issuer poll l)
includes-polled_by issuer poll [] = refl
includes-polled_by issuer poll (h ∷ l) = ground (arith, includes-polled_by issuer poll l)

without-unregistered :
    (issuer : String) (poll : FeedSourcePoll) (l : List FeedSourceHandle)
    → registrations issuer poll l ≡ 0
    → without issuer poll l ≡ l
without-unregistered issuer poll [] h = refl
without-unregistered issuer poll (x ∷ l) h = ground (arith, without-unregistered issuer poll l)

at_iff :
    (j issuer : String) (p poll : FeedSourcePoll) (x : FeedSourceHandle)
    → (j == issuer && p == poll) ≡ true
    → is_at j p x ≡ true
    → is_at issuer poll x ≡ true
at_iff j issuer p poll x own h = ground (
  arith,
  str_eq_iff j issuer,
  str_eq_iff x.handler j,
  str_eq_iff x.handler issuer,
  feed_source_poll_beq_iff p poll,
  feed_source_poll_beq_iff x.type p,
  feed_source_poll_beq_iff x.type poll,
)

at_distinct :
    (j issuer : String) (p poll : FeedSourcePoll) (x : FeedSourceHandle)
    → (j == issuer && p == poll) ≡ false
    → is_at j p x ≡ true
    → is_at issuer poll x ≡ false
at_distinct j issuer p poll x other h = ground (
  arith,
  str_eq_iff j issuer,
  str_eq_iff x.handler j,
  str_eq_iff x.handler issuer,
  feed_source_poll_beq_iff p poll,
  feed_source_poll_beq_iff x.type p,
  feed_source_poll_beq_iff x.type poll,
)

pub registrations-without :
    (issuer j : String) (poll p : FeedSourcePoll) (l : List FeedSourceHandle)
    → registrations j p (without issuer poll l)
      ≡ (if j == issuer && p == poll then 0 else registrations j p l)
registrations-without issuer j poll p l = elim (Bool-cases (j == issuer && p == poll)) [
  | inl own ↦
      rw own (
        count-select_none (is_at j p) (is_at issuer poll) l (λ x h. at_iff j issuer p poll x own h))
  | inr other ↦ rw other (
      count-select_all (is_at j p) (is_at issuer poll) l
        (λ x h. at_distinct j issuer p poll x other h))
]

abbrev pub polled : FeedSourcePoll → Failure
polled event = polled_by_event
polled timeperiod = polled_by_period

abbrev pub not_polled : FeedSourcePoll → Failure
not_polled event = not_polled_by_event
not_polled timeperiod = not_polled_by_period

ltb-true : (m n : ℕ) → m < n → ltb m n ≡ true
ltb-true m n h = ground arith

ltb-false : (m n : ℕ) → n ≤ m → ltb m n ≡ false
ltb-false m n h = ground arith

-- A removal, by the number of registrations.
removal_by_count :
    (s : Settings) (time : String) (actual : Option (List FeedSourceHandle))
    (info : SourcePollingInfo) (poll : FeedSourcePoll)
    → info.change ≡ some (removal poll)
    → review_source_handling s time actual info ≡ (
        if ltb 0 (registrations info.issuer poll (handles actual))
        then ok (without info.issuer poll (handles actual))
        else err (not_polled poll))
unfolding review_source_handling
removal_by_count s time actual info event e =
    rw e (ground (arith, includes-polled_by info.issuer event (handles actual)))
removal_by_count s time actual info timeperiod e =
    rw e (ground (arith, includes-polled_by info.issuer timeperiod (handles actual)))

-- A removal is refused exactly when the issuer has no registration of that kind: where it has none the
-- result is the error, and where it has one the removal is accepted, all its registrations of that
-- kind go and those of every other handler or kind stay.
pub review_source_handling-removal :
    (s : Settings) (time : String) (actual : Option (List FeedSourceHandle))
    (info : SourcePollingInfo) (poll : FeedSourcePoll)
    → info.change ≡ some (removal poll)
    → (registrations info.issuer poll (handles actual) ≡ 0
        → review_source_handling s time actual info ≡ err (not_polled poll))
      × (0 < registrations info.issuer poll (handles actual)
          → (l : List FeedSourceHandle) × (review_source_handling s time actual info ≡ ok l)
            × ((j : String) (p : FeedSourcePoll)
                → registrations j p l ≡ (
                    if j == info.issuer && p == poll
                    then 0
                    else registrations j p (handles actual))))
review_source_handling-removal s time actual info poll e = (
  λ unknown.
      rw (removal_by_count s time actual info poll e)
        (rw (ltb-false 0 (registrations info.issuer poll (handles actual)) (omega arith)) refl),
  λ known. (
    without info.issuer poll (handles actual),
    rw (removal_by_count s time actual info poll e)
        (rw (ltb-true 0 (registrations info.issuer poll (handles actual)) known) refl),
    λ j p. registrations-without info.issuer j poll p (handles actual),
  ),
)

-- An accepted registration stands before the others.
pub review_source_handling-addition :
    (s : Settings) (time : String) (actual : Option (List FeedSourceHandle))
    (info : SourcePollingInfo) (poll : FeedSourcePoll) {l : List FeedSourceHandle}
    → info.change ≡ some (addition poll)
    → review_source_handling s time actual info ≡ ok l
    → l ≡ record { handler = info.issuer; type = poll; time = time } ∷ handles actual
unfolding review_source_handling
review_source_handling-addition s time actual info event e h = ground arith
review_source_handling-addition s time actual info timeperiod e h = ground arith

registrations-entry :
    (issuer : String) (poll : FeedSourcePoll) (time : String) (l : List FeedSourceHandle)
    → ltb 0 (registrations issuer poll (record { handler = issuer; type = poll; time = time } ∷ l))
      ≡ true
registrations-entry issuer poll time l =
    ground (arith, str_eq_iff issuer issuer, feed_source_poll_beq_iff poll poll)

without-entry :
    (issuer : String) (poll : FeedSourcePoll) (time : String) (l : List FeedSourceHandle)
    → registrations issuer poll l ≡ 0
    → without issuer poll (record { handler = issuer; type = poll; time = time } ∷ l) ≡ l
without-entry issuer poll time l h = ground (
  arith,
  str_eq_iff issuer issuer,
  feed_source_poll_beq_iff poll poll,
  without-unregistered issuer poll l h,
)

-- If the registration of a handler that is not yet registered in a way is accepted, the removal of
-- that registration from the new list is accepted too, and gives the earlier list back.
pub review_source_handling-add-remove :
    (s : Settings) (time : String) (actual : Option (List FeedSourceHandle))
    (info : SourcePollingInfo) (poll : FeedSourcePoll) {l : List FeedSourceHandle}
    → registrations info.issuer poll (handles actual) ≡ 0
    → review_source_handling s time actual (record info { change = some (addition poll) }) ≡ ok l
    → review_source_handling s time (some l) (record info { change = some (removal poll) })
      ≡ ok (handles actual)
review_source_handling-add-remove s time actual info poll h e =
    let l_eq =
      review_source_handling-addition s time actual (record info { change = some (addition poll) })
        poll refl e in
    rw (removal_by_count s time (some _) (record info { change = some (removal poll) }) poll refl) (
      rw l_eq (
        rw (registrations-entry info.issuer poll time (handles actual))
          (ap ok (without-entry info.issuer poll time (handles actual) h))))

-- With both permissions of multiple polling denied, a registration is always accepted, also that of
-- a handler which is registered already.
pub review_source_handling-denied :
    (s : Settings) (time : String) (actual : Option (List FeedSourceHandle))
    (info : SourcePollingInfo) (poll : FeedSourcePoll)
    → info.change ≡ some (addition poll)
    → s.source_polling_allow_multiple_by_same_issuer ≡ false
    → s.source_polling_allow_multiple_type_by_same_issuer ≡ false
    → review_source_handling s time actual info
      ≡ ok (record { handler = info.issuer; type = poll; time = time } ∷ handles actual)
unfolding review_source_handling
review_source_handling-denied s time actual info event e d d' = rw e (ground arith)
review_source_handling-denied s time actual info timeperiod e d d' = rw e (ground arith)

-- With several pollings by one handler granted, a second registration of a handler in one way is
-- refused.
pub review_source_handling-granted :
    (s : Settings) (time : String) (actual : Option (List FeedSourceHandle))
    (info : SourcePollingInfo) (poll : FeedSourcePoll)
    → info.change ≡ some (addition poll)
    → s.source_polling_allow_multiple_by_same_issuer ≡ true
    → 1 ≤ registrations info.issuer poll (handles actual)
    → review_source_handling s time actual info ≡ err (polled poll)
unfolding review_source_handling
review_source_handling-granted s time actual info event e granted known =
    rw e (ground (arith, includes-polled_by info.issuer event (handles actual)))
review_source_handling-granted s time actual info timeperiod e granted known =
    rw e (ground (arith, includes-polled_by info.issuer timeperiod (handles actual)))
