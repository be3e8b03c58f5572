-- ===== src/EthTest/Logs/Scans.antt =====
-- The scan of logs ends, and what it has asked for then.
use chainlink_eth_secret_net.Base.{
  ℕ, zero, suc, ◌+◌, ◌*◌, ◌-◌, ◌≤◌, ◌<◌, List, [], ◌∷◌, ◌++◌, Option, none, some, false, ◌≡◌, ◌⊎◌,
  refl, inl, inr, arith, length, ltb, Bool-cases, Option-cases, ◌∙◌, ap,
}
use chainlink_eth_secret_net.Base.Int.{ℤ}
use chainlink_eth_secret_net.EthTest.{TestWorld, TestContract, TestNode}
use chainlink_eth_secret_net.EthTest.Logs.{
  Target, Scan, lot, after_lot, scan_lot, read_logs, goes_on, Loop, ended, failed, unfinished, scan,
  or_default, target_of, scan_from, load_log_event_answer_updated,
}

-- The first ranges of blocks back from the latest one, each next to the one before.
abbrev pub lots : Target → ℕ → List (ℤ × ℤ)
lots t zero = []
lots t (suc k) = lot t (k * t.block_lot_size) ∷ lots t k

-- The state of a scan after a number of passes.
pub record IsAfter (t : Target) (passes : ℕ) (s : Scan) : Type 0 where
  pub scanned : s.scanned ≡ passes * t.block_lot_size
  pub asked : s.asked ≡ lots t passes
  pub entries : length s.extracted_event_data ≡ passes

length-snoc : {A : Type 0} (l : List A) (x : A) → length (l ++ x ∷ []) ≡ suc (length l)
length-snoc [] x = refl
length-snoc (y ∷ l) x = ap suc (length-snoc l x)

scan_lot-IsAfter :
    (w : TestWorld) (t : Target) (k : ℕ) (s s' : Scan)
    → IsAfter t k s
    → scan_lot w t s ≡ some s'
    → IsAfter t (suc k) s'
unfolding scan_lot
scan_lot-IsAfter w t k s s' h e =
    elim (Option-cases (w.get_logs s.calls t.address (lot t s.scanned).0 (lot t s.scanned).1)) [
      | inl none_read ↦ ground (arith, none_read)
      | inr (temp_logs, some_read) ↦ elim (Option-cases (read_logs w s.logs temp_logs)) [
        | inl refused ↦ ground (arith, some_read, refused)
        | inr ((logs, entry), taken) ↦
            let same : s' ≡ after_lot t s logs entry = ground (arith, some_read, taken) in
            rw same (record {
              scanned = ground (arith, h.scanned);
              asked = rw (h.asked) (rw (h.scanned) refl);
              entries = length-snoc s.extracted_event_data entry ∙ ap suc (h.entries);
            })
      ]
    ]

-- How a scan ends: it has failed, or it has asked for the lots next to each other from the latest
-- block back, with one entry for each; it has not gone on for longer than the blocks wanted; and it
-- has enough logs or all these blocks.
pub record IsEnd (t : Target) (s : Scan) : Type 0 where
  pub passes : ℕ
  pub after : IsAfter t passes s
  pub bounded : passes * t.block_lot_size ≤ t.max_nb_blocks + t.block_lot_size
  pub complete : (t.max_nb_results ≤ length s.logs) ⊎ (t.max_nb_blocks < passes * t.block_lot_size)

abbrev pub Ends : Target → Loop → Type 0
Ends t (ended s) = IsEnd t s
Ends t failed = Unit
Ends t unfinished = ⊥

stops :
    (t : Target) (k : ℕ) (s : Scan)
    → IsAfter t k s
    → goes_on t s ≡ false
    → (t.max_nb_results ≤ length s.logs) ⊎ (t.max_nb_blocks < k * t.block_lot_size)
stops t k s h off = elim (Bool-cases (ltb (length s.logs) t.max_nb_results)) [
  | inl few ↦ inr (ground (arith, few, off, h.scanned))
  | inr enough ↦ inl (ground (arith, enough))
]

scan-Ends :
    (w : TestWorld) (t : Target) (fuel k : ℕ) (s : Scan)
    → 0 < t.block_lot_size
    → IsAfter t k s
    → k * t.block_lot_size ≤ t.max_nb_blocks + t.block_lot_size
    → suc t.max_nb_blocks - s.scanned < fuel
    → Ends t (scan w t fuel s)
unfolding scan
scan-Ends w t zero k s pos h b enough = omega (arith, enough)
scan-Ends w t (suc fuel) k s pos h b enough = elim (Bool-cases (goes_on t s)) [
  | inl on ↦
      rw (on, scan)
        (elim (Option-cases (scan_lot w t s)) [
          | inl e ↦ rw e tt
          | inr (s', e) ↦
              let h' = scan_lot-IsAfter w t k s s' h e in
              let within_blocks : s.scanned ≤ t.max_nb_blocks = ground (arith, on) in
              let further : s'.scanned ≡ s.scanned + t.block_lot_size =
                omega (arith, h.scanned, h'.scanned) in
              rw e (
                scan-Ends w t fuel (suc k) s' pos h' (omega (arith, h.scanned, within_blocks))
                  (omega (arith, further, pos, enough, within_blocks)))
        ])
  | inr off ↦
      rw (off, scan) (record { passes = k; after = h; bounded = b; complete = stops t k s h off })
]

or_default-positive : (default : ℕ) (x : Option ℕ) → 0 < default → 0 < or_default default x
or_default-positive default none h = h
or_default-positive default (some x) h = ground (arith, h)

-- The load of the logs always comes to an end: it fails, or it returns after a number of passes, each
-- of which has asked for the lot of blocks next to the one before, from the latest block back, and
-- given one entry; then it has logs enough or all the blocks wanted, and it has asked for less than
-- one lot too much.
pub load_log_event_answer_updated_lem :
    (w : TestWorld) (contract : TestContract) (max_nb_results latest : ℕ)
    (over_max_nb_blocks nb_block_per_log_req : Option ℕ) (n : TestNode)
    → w.block_number n.calls ≡ some latest
    → Ends (target_of contract latest max_nb_results over_max_nb_blocks nb_block_per_log_req) (
        load_log_event_answer_updated w contract max_nb_results over_max_nb_blocks
          nb_block_per_log_req n)
unfolding load_log_event_answer_updated
load_log_event_answer_updated_lem w contract max_nb_results latest over_max_nb_blocks
      nb_block_per_log_req n e =
    let t = target_of contract latest max_nb_results over_max_nb_blocks nb_block_per_log_req in
    rw (e, load_log_event_answer_updated)
      (scan-Ends w t (suc (suc t.max_nb_blocks)) 0 (scan_from (suc n.calls))
        (or_default-positive 5 nb_block_per_log_req (omega arith))
        (record { scanned = omega arith; asked = refl; entries = refl }) (omega arith)
        (omega arith))
