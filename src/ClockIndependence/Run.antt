-- ===== src/ClockIndependence/Run.antt =====
-- `run_after_full_init` of rp1_chainboot_poc/src/rp1_clock_independence.rs: the handshake with the
-- RP1 firmware, the wait without bus access, and the one read of the record. The bus and the timer
-- are the state `S`.
use rp1_bootloader_po_c.Base.{arith}
use rp1_bootloader_po_c.Base.{
  ℕ, zero, suc, ◌+◌, ◌*◌, ◌≡◌, ◌≢◌, refl, Bool, true, ◌&&◌, not, if◌then◌else◌, Option, none, some,
  Bool-cases, inl, inr, and_true, ==_iff,
}
use rp1_bootloader_po_c.Base.{◌==◌}
use rp1_bootloader_po_c.ClockIndependence.{Words, log_and_validate}

abbrev record_offset : ℕ
record_offset = 0xfd80

-- What the run reports.
pub data Report : Type 0 where
  bar2_missing bar2_precondition ack_timeout : Report
  finished : Bool → Report

-- The accesses of the source: volatile reads and writes, and the two delays.
pub record Bus (S : Type 0) : Type 0 where
  pub read : S → ℕ → ℕ × S
  pub write : S → ℕ → ℕ → S
  pub delay_micros : S → ℕ → S
  pub delay_millis : S → ℕ → S

report_injective : {a b : Bool} → finished a ≡ finished b → a ≡ b
report_injective e = cc

nonzero_of_test : (x : ℕ) → not (x == 0) ≡ true → x ≢ 0
nonzero_of_test x h = ground arith

module _ {S : Type 0} (bus : Bus S) where
  read_word : ℕ → ℕ → S → ℕ × S
  read_word bar2 index s = bus.read s (bar2 + record_offset + index * 4)

  write_word : ℕ → ℕ → ℕ → S → S
  write_word bar2 index value s = bus.write s (bar2 + record_offset + index * 4) value

  -- The seven words that one poll reads.
  poll : ℕ → S → (Bool × ℕ) × S
  poll bar2 s =
      let (magic, s) = read_word bar2 0 s in
      let (version, s) = read_word bar2 1 s in
      let (size, s) = read_word bar2 2 s in
      let (sequence, s) = read_word bar2 3 s in
      let (ack, s) = read_word bar2 4 s in
      let (go, s) = read_word bar2 5 s in
      let (phase, s) = read_word bar2 6 s in
      let ready =
        magic == 0x50523143
        && version == 1
        && size == 160
        && not (sequence == 0)
        && ack == sequence
        && go == 0
        && phase == 2 in
      ((ready, sequence), s)

  ack_loop : ℕ → ℕ → S → Option ℕ × S
  ack_loop bar2 zero s = (none, s)
  ack_loop bar2 (suc k) s =
      let ((ready, sequence), after) = poll bar2 s in
      let more = ack_loop bar2 k (bus.delay_micros after 500) in
      if ready then (some sequence, after) else more

  wait_for_ack : ℕ → S → Option ℕ × S
  wait_for_ack bar2 s = ack_loop bar2 4000 s

  record_from : ℕ → ℕ → ℕ → S → Words × S
  record_from bar2 zero index s = (λ i. 0, s)
  record_from bar2 (suc k) index s =
      let (w, s1) = read_word bar2 index s in
      let (rest, s2) = record_from bar2 k (index + 1) s1 in
      (λ i. if i == index then w else rest i, s2)

  read_record_once : ℕ → S → Words × S
  read_record_once bar2 s = record_from bar2 160 0 s

  -- The acknowledged run: go, wait, fetch and validate.
  autonomous_run : ℕ → ℕ → S → Report × S
  autonomous_run bar2 sequence s =
      let go = write_word bar2 5 sequence s in
      let (words, fetched) = read_record_once bar2 (bus.delay_millis go 3500) in
      (finished (log_and_validate words sequence), fetched)

  handshake : ℕ → Option ℕ × S → Report × S
  handshake bar2 (none, s) = (ack_timeout, s)
  handshake bar2 (some sequence, s) = autonomous_run bar2 sequence s

  -- `rp1.shared_sram_addr` is the base and the size of BAR2.
  run_after_full_init : Option (ℕ × ℕ) → S → Report × S
  run_after_full_init none s = (bar2_missing, s)
  run_after_full_init (some (base, size)) s =
      if base == 0x1f00400000 && size == 0x10000
      then handshake base (wait_for_ack base s)
      else (bar2_precondition, s)

  poll_sequence : (bar2 : ℕ) (s : S) → (poll bar2 s).0.0 ≡ true → (poll bar2 s).0.1 ≢ 0
  unfolding poll
  poll_sequence bar2 s h =
      let (h, phase) = and_true _ _ h in
      let (h, go) = and_true _ _ h in
      let (h, ack) = and_true _ _ h in
      let (h, sequence) = and_true _ _ h in nonzero_of_test _ sequence

  ack_sequence :
      (bar2 k : ℕ) (s : S) (sequence : ℕ) → (ack_loop bar2 k s).0 ≡ some sequence → sequence ≢ 0
  unfolding ack_loop
  ack_sequence bar2 zero s sequence e = absurd cc
  ack_sequence bar2 (suc k) s sequence e = elim (Bool-cases (poll bar2 s).0.0) [
    | inl h ↦
        let found : ◌≡◌ {A = Option ℕ} (some (poll bar2 s).0.1) (some sequence) = rw h at e in
        let same : (poll bar2 s).0.1 ≡ sequence = cc in rw (← same) (poll_sequence bar2 s h)
    | inr h ↦ ack_sequence bar2 k (bus.delay_micros (poll bar2 s).1 500) sequence (rw h at e)
  ]

  handshake_pass :
      (bar2 : ℕ) (acked : Option ℕ × S)
      → (handshake bar2 acked).0 ≡ finished true
      → (sequence : ℕ) × (words : Words) × (acked.0 ≡ some sequence)
        × (log_and_validate words sequence ≡ true)
  unfolding handshake autonomous_run
  handshake_pass bar2 (none, s) e = absurd cc
  handshake_pass bar2 (some sequence, s) e = (
    sequence,
    (read_record_once bar2 (bus.delay_millis (write_word bar2 5 sequence s) 3500)).0,
    refl,
    report_injective e,
  )

  -- A run that reports `pass` had the expected BAR2 and fetched a record that passes all checks for
  -- a sequence number other than zero.
  run_pass :
      (shared : Option (ℕ × ℕ)) (s : S)
      → (run_after_full_init shared s).0 ≡ finished true
      → (shared ≡ some (0x1f00400000, 0x10000))
        × ((sequence : ℕ) × (words : Words) × (sequence ≢ 0)
            × (log_and_validate words sequence ≡ true))
  unfolding run_after_full_init wait_for_ack
  run_pass none s e = absurd cc
  run_pass (some (base, size)) s e = elim (Bool-cases (base == 0x1f00400000 && size == 0x10000)) [
    | inl h ↦
        let (at, wide) = and_true _ _ h in
        let same : base ≡ 0x1f00400000 = (==_iff _ _).0 at in
        let full : size ≡ 0x10000 = (==_iff _ _).0 wide in
        let (sequence, words, acked, valid) =
          handshake_pass base (ack_loop base 4000 s) (rw h at e) in
        (rw (same, full) refl, (sequence, words, ack_sequence base 4000 s sequence acked, valid))
    | inr h ↦ let no : bar2_precondition ≡ finished true = rw h at e in absurd cc
  ]
