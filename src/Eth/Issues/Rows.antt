-- ===== src/Eth/Issues/Rows.antt =====
-- Bounds and order of the reported issues, and what their count counts.
use chainlink_eth_secret_net.Base.{
  ℕ, zero, min, ◌+◌, ◌≤◌, String, List, [], ◌∷◌, Option, none, some, ◌≡◌, refl, max, length, take,
  count, arith, ltb, if◌then◌else◌, ◌∙◌, ◌-◌, suc, pop, ap, sym, inl, inr, Bool-cases, Option-cases,
  length-take-le, count-le-length, length-pop,
}
use chainlink_eth_secret_net.Config.Settings.{Settings}
use chainlink_eth_secret_net.Data.SourceEnums.{
  SourceCastReason, source_cast_reason_eq, source_cast_reason_beq_iff,
}
use chainlink_eth_secret_net.Data.Records.{Text, FeedConfigSource, ProcessingIssue}
use chainlink_eth_secret_net.Eth.Issues.{
  has_type, count_issue_in_last_row, room, issue_source_processing_note,
}

-- The issues of a source that reports none are the empty list.
abbrev pub issues : FeedConfigSource → List ProcessingIssue
issues source = elim source.issue [ none ↦ [] | some l ↦ l ]

abbrev pub info_length : ProcessingIssue → ℕ
info_length note = elim note.info [ none ↦ 0 | some t ↦ length t ]

length-room :
    (limit : ℕ) (issue : Option (List ProcessingIssue)) (bound : ℕ)
    → limit ≤ bound
    → 1 ≤ bound
    → length (elim issue [ none ↦ [] | some l ↦ l ]) ≤ bound
    → length (room limit issue) + 1 ≤ bound
length-room limit none bound a b h = ground arith
length-room limit (some l) bound a b h = ground (arith, length-pop l)

length_note :
    (s : Settings) (source : FeedConfigSource)
    → length (issues source) ≤ max 1 s.source_issue_max_number
    → length (room s.source_issue_max_number source.issue) + 1 ≤ max 1 s.source_issue_max_number
length_note s source h =
    length-room s.source_issue_max_number source.issue _ (omega arith) (omega arith) h

-- A source whose issues number at most the configured maximum (or one, where that is 0) still does
-- after a note, and the text of the note has at most 512 code units.
pub issue_source_processing_note_bounds :
    (s : Settings) (id : String) (source : FeedConfigSource) (reason : SourceCastReason)
    (info : Option Text)
    → length (issues source) ≤ max 1 s.source_issue_max_number
    → let (source', note) = issue_source_processing_note s id source reason info in
      (length (issues source') ≤ max 1 s.source_issue_max_number) × (info_length note ≤ 512)
unfolding issue_source_processing_note
issue_source_processing_note_bounds s id source reason none h =
    (omega (arith, length_note s source h), omega arith)
issue_source_processing_note_bounds s id source reason (some t) h =
    (omega (arith, length_note s source h), length-take-le 512 t)

pop-eq-take : (l : List ProcessingIssue) → pop l ≡ take (length (pop l)) l
pop-eq-take [] = refl
pop-eq-take (x ∷ []) = refl
pop-eq-take (x ∷ y ∷ l) = ap (λ r. x ∷ r) (pop-eq-take (y ∷ l))

take-length : (l : List ProcessingIssue) → take (length l) l ≡ l
take-length [] = refl
take-length (x ∷ l) = ap (λ r. x ∷ r) (take-length l)

room-eq-take :
    (limit : ℕ) (issue : Option (List ProcessingIssue))
    → room limit issue ≡ take (length (room limit issue)) (elim issue [ none ↦ [] | some l ↦ l ])
room-eq-take limit none = refl
room-eq-take limit (some l) = elim (Bool-cases (ltb limit (length l + 1))) [
  | inl full ↦ rw full (pop-eq-take l)
  | inr roomy ↦ rw roomy (sym (take-length l))
]

suc-sub-one : (k : ℕ) → k ≡ suc k - 1
suc-sub-one k = omega arith

length-room-le :
    (limit : ℕ) (issue : Option (List ProcessingIssue))
    → length (elim issue [ none ↦ [] | some l ↦ l ]) ≤ length (room limit issue) + 1
length-room-le limit none = omega arith
length-room-le limit (some l) = ground (arith, length-pop l)

-- The newest issue stands first: the note of the running service, with the reason given, is put
-- before the earlier issues, of which only the oldest may go, one at most.
pub issue_source_processing_note_order :
    (s : Settings) (id : String) (source : FeedConfigSource) (reason : SourceCastReason)
    (info : Option Text)
    → let (source', note) = issue_source_processing_note s id source reason info in
      (note.issuer ≡ id)
      × (note.type ≡ reason)
      × (issues source' ≡ note ∷ take (length (issues source') - 1) (issues source))
      × (length (issues source) ≤ length (issues source'))
unfolding issue_source_processing_note
issue_source_processing_note_order s id source reason info = (
  refl,
  refl,
  ap (λ r. (issue_source_processing_note s id source reason info).1 ∷ r)
      (room-eq-take s.source_issue_max_number source.issue
        ∙ ap (λ k. take k (issues source)) (suc-sub-one _)),
  omega (arith, length-room-le s.source_issue_max_number source.issue),
)

-- The length of the row of issues of one type that stands first, which is the latest.
abbrev pub last_row : SourceCastReason → List ProcessingIssue → ℕ
last_row reason [] = 0
last_row reason (i ∷ is) =
    let rest = last_row reason is in if has_type reason i then rest + 1 else 0

-- The issues behind the first row.
abbrev pub after_row : SourceCastReason → List ProcessingIssue → List ProcessingIssue
after_row reason [] = []
after_row reason (i ∷ is) = if has_type reason i then after_row reason is else i ∷ is

count-last_row :
    (reason : SourceCastReason) (l : List ProcessingIssue)
    → count (has_type reason) l ≡ last_row reason l + count (has_type reason) (after_row reason l)
count-last_row reason [] = refl
count-last_row reason (i ∷ is) = ground (arith, count-last_row reason is)

-- The count is that of the latest row of issues of the type plus all those of the type behind it,
-- which other issues separate from the row.
pub count_issue_in_last_row_lem :
    (source : FeedConfigSource) (reason : SourceCastReason)
    → count_issue_in_last_row source reason
      ≡ last_row reason (issues source) + count (has_type reason) (after_row reason (issues source))
unfolding count_issue_in_last_row
count_issue_in_last_row_lem source reason = elim (Option-cases source.issue) [
  | inl missing ↦ rw missing refl
  | inr (l, e) ↦ rw e (count-last_row reason l)
]

-- Nothing but the issues of a source changes by a note.
pub issue_source_processing_note_rest :
    (s : Settings) (id : String) (source : FeedConfigSource) (reason : SourceCastReason)
    (info : Option Text)
    → let source' = (issue_source_processing_note s id source reason info).0 in
      source' ≡ record source { issue = source'.issue }
unfolding issue_source_processing_note
issue_source_processing_note_rest s id source reason info = refl

last_row-take :
    (reason : SourceCastReason) (k : ℕ) (l : List ProcessingIssue)
    → min k (last_row reason l) ≤ last_row reason (take k l)
last_row-take reason zero l = omega arith
last_row-take reason (suc k) [] = omega arith
last_row-take reason (suc k) (i ∷ l) = ground (arith, last_row-take reason k l)

room-last_row :
    (reason : SourceCastReason) (limit : ℕ) (issue : Option (List ProcessingIssue))
    → let l : List ProcessingIssue = elim issue [ none ↦ [] | some l ↦ l ] in
      min (last_row reason l) (limit - 1) ≤ last_row reason (room limit issue)
room-last_row reason limit none = omega arith
room-last_row reason limit (some l) = ground (
  arith,
  last_row-take reason (length (pop l)) l,
  ap (last_row reason) (pop-eq-take l),
  length-pop l,
)

-- A note of a type makes the latest row of that type one longer, up to the number of issues kept.
pub last_row-note :
    (s : Settings) (id : String) (source : FeedConfigSource) (reason : SourceCastReason)
    (info : Option Text)
    → min (suc (last_row reason (issues source))) (max 1 s.source_issue_max_number)
      ≤ last_row reason (issues (issue_source_processing_note s id source reason info).0)
unfolding issue_source_processing_note
last_row-note s id source reason info = ground (
  arith,
  source_cast_reason_beq_iff reason reason,
  room-last_row reason s.source_issue_max_number source.issue,
)

-- No more issues are counted than there are.
pub count_issue_in_last_row-le :
    (source : FeedConfigSource) (reason : SourceCastReason)
    → count_issue_in_last_row source reason ≤ length (issues source)
unfolding count_issue_in_last_row
count_issue_in_last_row-le source reason = elim (Option-cases source.issue) [
  | inl missing ↦ rw missing (omega arith)
  | inr (l, e) ↦ rw e (count-le-length (has_type reason) l)
]
