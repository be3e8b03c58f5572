-- ===== src/Eth/Handles/Registry.antt =====
-- The registrations of a source as a table of counts, without their order and dates: what
-- reviewSourceHandling of eth-client/src/eth-connect.service.ts does to such a table.
use chainlink_eth_secret_net.Base.{
  ℕ, suc, String, List, [], ◌∷◌, Option, none, some, Bool, true, false, ◌&&◌, ◌≡◌, refl, ap, ◌∙◌,
  ltb, includes, ◌==◌, string_eq, if◌then◌else◌, arith, not, str_eq_iff,
}
use chainlink_eth_secret_net.Config.Settings.{Settings}
use chainlink_eth_secret_net.Data.SourceEnums.{
  SourcePollingChange, add_periodic, add_listen_event, remove_periodic, remove_listen_event,
}
use chainlink_eth_secret_net.Data.FeedEnums.{
  FeedSourcePoll, event, timeperiod, feed_source_poll_eq, feed_source_poll_beq_iff,
}
use chainlink_eth_secret_net.Data.Records.{FeedSourceHandle, SourcePollingInfo}
use chainlink_eth_secret_net.Eth.World.{Failure, mixed_polling, unknown_change}
use chainlink_eth_secret_net.Eth.Action.{Outcome, ok, err}
use chainlink_eth_secret_net.Eth.Handles.{polled_by, without, review_source_handling}
use chainlink_eth_secret_net.Eth.Handles.Registrations.{
  registrations, registrations-without, includes-polled_by, polled, not_polled, addition, removal,
}

-- How often each handler polls the source in each way.
abbrev pub Registry : Type 0
Registry = String → FeedSourcePoll → ℕ

abbrev here : String → FeedSourcePoll → String → FeedSourcePoll → Bool
here issuer poll j p = j == issuer && p == poll

abbrev other : FeedSourcePoll → FeedSourcePoll
other event = timeperiod
other timeperiod = event

-- One registration more.
add : Settings → String → FeedSourcePoll → Registry → Outcome Registry
add settings issuer poll table =
    if ltb 0 (table issuer poll) && settings.source_polling_allow_multiple_by_same_issuer
    then err (polled poll)
    else if ltb 0 (table issuer (other poll))
        && settings.source_polling_allow_multiple_type_by_same_issuer
    then err mixed_polling
    else ok (λ j p. if here issuer poll j p then suc (table j p) else table j p)

-- No registration any more.
remove : String → FeedSourcePoll → Registry → Outcome Registry
remove issuer poll table =
    if ltb 0 (table issuer poll)
    then ok (λ j p. if here issuer poll j p then 0 else table j p)
    else err (not_polled poll)

-- A change of the table.
register : Settings → String → Option SourcePollingChange → Registry → Outcome Registry
unfolding add remove
register settings issuer none table = err unknown_change
register settings issuer (some add_periodic) table = add settings issuer timeperiod table
register settings issuer (some add_listen_event) table = add settings issuer event table
register settings issuer (some remove_periodic) table = remove issuer timeperiod table
register settings issuer (some remove_listen_event) table = remove issuer event table

-- The list has as many registrations as the table says.
abbrev pub Counts : List FeedSourceHandle → Registry → Type 0
Counts l table = (j : String) (p : FeedSourcePoll) → registrations j p l ≡ table j p

-- A change of the list comes to what the change of the table comes to.
abbrev Agrees : Outcome (List FeedSourceHandle) → Outcome Registry → Type 0
Agrees (ok l) (ok table) = Counts l table
Agrees (err e) (err f) = e ≡ f
Agrees _ _ = ⊥

-- A list with one registration more.
Counts-add :
    (l : List FeedSourceHandle) (table : Registry) (issuer time : String) (poll : FeedSourcePoll)
    → Counts l table
    → Counts
        (record { handler = issuer; type = poll; time = time } ∷ l)
        (λ j p. if here issuer poll j p then suc (table j p) else table j p)
Counts-add l table issuer time poll h = λ j p. ground (
  arith,
  h j p,
  str_eq_iff issuer j,
  str_eq_iff j issuer,
  feed_source_poll_beq_iff poll p,
  feed_source_poll_beq_iff p poll,
)

Counts-remove :
    (l : List FeedSourceHandle) (table : Registry) (issuer : String) (poll : FeedSourcePoll)
    → Counts l table
    → Counts (without issuer poll l) (λ j p. if here issuer poll j p then 0 else table j p)
Counts-remove l table issuer poll h =
    λ j p. rw (registrations-without issuer j poll p l) (rw (h j p) refl)

-- What a handler is registered for, by the table.
known :
    (l : List FeedSourceHandle) (table : Registry) (issuer : String) (poll : FeedSourcePoll)
    → Counts l table
    → includes (polled_by issuer l) poll ≡ ltb 0 (table issuer poll)
known l table issuer poll h = includes-polled_by issuer poll l ∙ ap (ltb 0) (h issuer poll)

-- The same tests on both sides.
tested-Agrees :
    (c d : Bool) (x y : Failure) (l : List FeedSourceHandle) (table : Registry)
    → Counts l table
    → Agrees
        (if c then err x else if d then err y else ok l)
        (if c then err x else if d then err y else ok table)
tested-Agrees true d x y l table h = refl
tested-Agrees false true x y l table h = refl
tested-Agrees false false x y l table h = h

present-Agrees :
    (c : Bool) (x : Failure) (l : List FeedSourceHandle) (table : Registry)
    → Counts l table
    → Agrees (if not c then err x else ok l) (if c then ok table else err x)
present-Agrees true x l table h = h
present-Agrees false x l table h = refl

module _ (settings : Settings) (time : String) (l : List FeedSourceHandle) (table : Registry)
    (info : SourcePollingInfo) (h : Counts l table) where
  add-Agrees :
      (poll : FeedSourcePoll)
      → info.change ≡ some (addition poll)
      → Agrees
          (review_source_handling settings time (some l) info)
          (add settings info.issuer poll table)
  unfolding review_source_handling add
  add-Agrees event e = rw e (
      rw (known l table info.issuer event h) (
        rw (known l table info.issuer timeperiod h) (
          tested-Agrees
            (ltb 0 (table info.issuer event)
              && settings.source_polling_allow_multiple_by_same_issuer)
            (ltb 0 (table info.issuer timeperiod)
              && settings.source_polling_allow_multiple_type_by_same_issuer)
            (polled event) mixed_polling
            (record { handler = info.issuer; type = event; time = time } ∷ l)
            (λ j p. if here info.issuer event j p then suc (table j p) else table j p)
            (Counts-add l table info.issuer time event h))))
  add-Agrees timeperiod e = rw e (
      rw (known l table info.issuer event h) (
        rw (known l table info.issuer timeperiod h) (
          tested-Agrees
            (ltb 0 (table info.issuer timeperiod)
              && settings.source_polling_allow_multiple_by_same_issuer)
            (ltb 0 (table info.issuer event)
              && settings.source_polling_allow_multiple_type_by_same_issuer)
            (polled timeperiod) mixed_polling
            (record { handler = info.issuer; type = timeperiod; time = time } ∷ l)
            (λ j p. if here info.issuer timeperiod j p then suc (table j p) else table j p)
            (Counts-add l table info.issuer time timeperiod h))))

  remove-Agrees :
      (poll : FeedSourcePoll)
      → info.change ≡ some (removal poll)
      → Agrees (review_source_handling settings time (some l) info) (remove info.issuer poll table)
  unfolding review_source_handling remove
  remove-Agrees event e = rw e (
      rw (known l table info.issuer event h) (
        present-Agrees (ltb 0 (table info.issuer event)) (not_polled event)
          (without info.issuer event l) (λ j p. if here info.issuer event j p then 0 else table j p)
          (Counts-remove l table info.issuer event h)))
  remove-Agrees timeperiod e = rw e (
      rw (known l table info.issuer timeperiod h) (
        present-Agrees (ltb 0 (table info.issuer timeperiod)) (not_polled timeperiod)
          (without info.issuer timeperiod l)
          (λ j p. if here info.issuer timeperiod j p then 0 else table j p)
          (Counts-remove l table info.issuer timeperiod h)))

  register-Agrees :
      (change : Option SourcePollingChange)
      → info.change ≡ change
      → Agrees
          (review_source_handling settings time (some l) info)
          (register settings info.issuer change table)
  unfolding register review_source_handling
  register-Agrees none e = rw e refl
  register-Agrees (some add_periodic) e = add-Agrees timeperiod e
  register-Agrees (some add_listen_event) e = add-Agrees event e
  register-Agrees (some remove_periodic) e = remove-Agrees timeperiod e
  register-Agrees (some remove_listen_event) e = remove-Agrees event e

-- A refused change leaves things as they are.
abbrev kept_or : {A : Type 0} → A → Outcome A → A
kept_or a (ok b) = b
kept_or a (err e) = a

-- The changes of a source, each with its date, one after the other: on the list of handles that the
-- config carries, and on the table.
pub review_all :
    Settings → List (String × SourcePollingInfo) → List FeedSourceHandle → List FeedSourceHandle
review_all settings [] l = l
review_all settings ((time, info) ∷ changes) l =
    review_all settings changes (kept_or l (review_source_handling settings time (some l) info))

pub register_all : Settings → List (String × SourcePollingInfo) → Registry → Registry
unfolding register
register_all settings [] table = table
register_all settings ((time, info) ∷ changes) table =
    register_all settings changes (kept_or table (register settings info.issuer info.change table))

kept_or-Counts :
    (l : List FeedSourceHandle) (table : Registry) (r : Outcome (List FeedSourceHandle))
    (r' : Outcome Registry)
    → Counts l table
    → Agrees r r'
    → Counts (kept_or l r) (kept_or table r')
kept_or-Counts l table (ok m) (ok t) h a = a
kept_or-Counts l table (err e) (err f) h a = h
kept_or-Counts l table (ok m) (err f) h a = elim a [ ]
kept_or-Counts l table (err e) (ok t) h a = elim a [ ]

-- The handles of a source refine a table that says how often each handler polls it in each way: after
-- any changes, in any order and at any dates, with those that are refused left out, the list has
-- exactly the registrations of the table that went through the same changes.
pub review_all-refines :
    (settings : Settings) (changes : List (String × SourcePollingInfo)) (l : List FeedSourceHandle)
    (table : Registry)
    → Counts l table
    → Counts (review_all settings changes l) (register_all settings changes table)
unfolding review_all register_all
review_all-refines settings [] l table h = h
review_all-refines settings ((time, info) ∷ changes) l table h =
    review_all-refines settings changes
      (kept_or l (review_source_handling settings time (some l) info))
      (kept_or table (register settings info.issuer info.change table))
      (kept_or-Counts l table _ _ h (register-Agrees settings time l table info h info.change refl))
