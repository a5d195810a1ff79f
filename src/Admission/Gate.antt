-- ===== src/Admission/Gate.antt =====
-- The state that `ServiceAdmission` and `R1Admission` keep, and the log of samples they are given.
-- A `[u32; 256]` is the function from an index below 256 to the word. The second half says which
-- logs a gate is meant to admit, and follows a gate that remembers only two samples through a log.
use rp1_bootloader_po_c.Base.{ltb_sound}
use rp1_bootloader_po_c.Base.{
  ℕ, zero, suc, ◌+◌, ◌-◌, ◌*◌, ◌%◌, ◌^◌, ◌≤◌, ◌<◌, ◌≡◌, refl, Bool, true, false, ◌&&◌, ◌||◌, ltb,
  leb, ==_iff, Bool-cases, inl, inr, ◌⊎◌, if◌then◌else◌, arith, and_true,
}
use rp1_bootloader_po_c.Base.{◌==◌}

abbrev pub Words : Type 0
Words = ℕ → ℕ

-- `next`, `valid`, what is kept of the first running sample and what of the last.
pub record Gate (F P : Type 0) : Type 0 where
  pub next : ℕ
  pub valid : Bool
  pub first : F
  pub previous : P

pub record Entry : Type 0 where
  pub number : ℕ
  pub words : Words

abbrev pub in_range : ℕ → ℕ → ℕ → Bool
in_range low high x = leb low x && ltb x high

-- `(1..0x8000_0000).contains(&now.wrapping_sub(before))`.
unfoldable pub moved : ℕ → ℕ → Bool
moved now before = in_range 1 0x80000000 ((now + 2 ^ 32 - before) % 2 ^ 32)

-- `950 * ticks <= elapsed <= 1050 * ticks` with both measured by `wrapping_sub`.
unfoldable pub rate_valid : ℕ → ℕ → ℕ → ℕ → Bool
rate_valid tick first_tick time first_time =
    let ticks = (tick + 2 ^ 32 - first_tick) % 2 ^ 32 in
    let elapsed = (time + 2 ^ 32 - first_time) % 2 ^ 32 in
    ltb 0 ticks && leb (950 * ticks) elapsed && leb elapsed (1050 * ticks)

-- The samples a gate is shown: sample `n` is `log n`.
abbrev pub Log : Type 0
Log = ℕ → Entry

abbrev pub all_below : ℕ → (ℕ → Bool) → Bool
all_below zero p = true
all_below (suc n) p = all_below n p && p n

module _ {F P : Type 0} (first0 : F) (previous0 : P) (keep_first : Words → F)
    (keep_previous : Words → P) (header running : Words → Bool) (advances : P → Words → Bool) where
  -- A gate of this shape.
  unfoldable pub gate_new : Gate F P
  gate_new = record { next = 0; valid = true; first = first0; previous = previous0 }

  unfoldable pub gate_sample : Gate F P → ℕ → Words → Gate F P
  gate_sample g number w =
      let v = g.valid && (number == g.next && ltb number 31 && header w) in
      if leb 3 number
      then (if number == 3
          then record {
            next = (g.next + 1) % 2 ^ 32;
            valid = v && running w;
            first = keep_first w;
            previous = keep_previous w;
          }
          else record {
            next = (g.next + 1) % 2 ^ 32;
            valid = v && running w && advances g.previous w;
            first = g.first;
            previous = keep_previous w;
          })
      else record {
        next = (g.next + 1) % 2 ^ 32;
        valid = v;
        first = g.first;
        previous = g.previous;
      }

  unfoldable pub gate_run : Log → ℕ → Gate F P
  gate_run log zero = gate_new
  gate_run log (suc n) = gate_sample (gate_run log n) (log n).number (log n).words

  -- The whole log's description: sample `n` is numbered `n`, a running one passes the checks of a
  -- running system, and from the fourth on its counters have moved since the one before.
  unfoldable pub entry_valid : Log → ℕ → Bool
  entry_valid log n =
      (log n).number == n
      && ltb n 31
      && header (log n).words
      && (ltb n 3 || running (log n).words)
      && (ltb n 4 || advances (keep_previous (log (n - 1)).words) (log n).words)

  -- What the gate has become after `n` valid samples.
  expected : Log → ℕ → Gate F P
  expected log n = record {
    next = n;
    valid = true;
    first = if leb 4 n then keep_first (log 3).words else first0;
    previous = if leb 4 n then keep_previous (log (n - 1)).words else previous0;
  }

  sample_invalid :
      (g : Gate F P) (n : ℕ) (w : Words) → g.valid ≡ false → (gate_sample g n w).valid ≡ false
  unfolding gate_sample
  sample_invalid g n w h = ground arith

  entry_inverse :
      (log : Log) (n : ℕ)
      → entry_valid log n ≡ true
      → ((log n).number ≡ n)
        × (n < 31)
        × (header (log n).words ≡ true)
        × ((ltb n 3 || running (log n).words) ≡ true)
        × ((ltb n 4 || advances (keep_previous (log (n - 1)).words) (log n).words) ≡ true)
  unfolding entry_valid
  entry_inverse log n h =
      let (h, last) = and_true _ _ h in
      let (h, run) = and_true _ _ h in
      let (h, head) = and_true _ _ h in
      let (h, small) = and_true _ _ h in ((==_iff _ _).0 h, ltb_sound _ _ small, head, run, last)

  sample_late :
      (log : Log) (n : ℕ)
      → 4 ≤ n
      → entry_valid log n ≡ true
      → gate_sample (expected log n) (log n).number (log n).words ≡ expected log (suc n)
  unfolding gate_sample expected
  sample_late log n late h =
      let (number, small, head, run, last) = entry_inverse log n h in
      let three : leb 3 n ≡ true = ground arith in
      let four : leb 4 n ≡ true = ground arith in
      let five : leb 4 (suc n) ≡ true = ground arith in
      let not_three : (n == 3) ≡ false = ground arith in
      let self : (n == n) ≡ true = (==_iff n n).1 refl in
      let below : ltb n 31 ≡ true = ground arith in
      let next : (n + 1) % 2 ^ 32 ≡ suc n = omega arith in
      let not_lt3 : ltb n 3 ≡ false = ground arith in
      let not_lt4 : ltb n 4 ≡ false = ground arith in
      let back : suc n - 1 ≡ n = omega arith in
      rw
        (
          number,
          self,
          three,
          four,
          five,
          not_three,
          below,
          head,
          next,
          back,
          (rw not_lt3 at run),
          (rw not_lt4 at last),
        )
        refl

  sample_expected :
      (log : Log) (n : ℕ)
      → entry_valid log n ≡ true
      → gate_sample (expected log n) (log n).number (log n).words ≡ expected log (suc n)
  unfolding gate_sample expected
  sample_expected log zero h =
      let (number, small, head, run, last) = entry_inverse log 0 h in rw (number, head) refl
  sample_expected log (suc zero) h =
      let (number, small, head, run, last) = entry_inverse log 1 h in rw (number, head) refl
  sample_expected log (suc (suc zero)) h =
      let (number, small, head, run, last) = entry_inverse log 2 h in rw (number, head) refl
  sample_expected log (suc (suc (suc zero))) h =
      let (number, small, head, run, last) = entry_inverse log 3 h in rw (number, head, run) refl
  sample_expected log (suc (suc (suc (suc n)))) h =
      sample_late log (suc (suc (suc (suc n)))) (omega arith) h

  sample_refused :
      (log : Log) (n : ℕ)
      → entry_valid log n ≡ false
      → (gate_sample (expected log n) (log n).number (log n).words).valid ≡ false
  unfolding gate_sample expected entry_valid
  sample_refused log n h = ground arith

  -- A gate has either seen only valid samples, and then remembers the third and the last one, or
  -- it is invalid.
  run_cases :
      (log : Log) (n : ℕ)
      → (all_below n (entry_valid log) ≡ true) × (gate_run log n ≡ expected log n)
        ⊎ (all_below n (entry_valid log) ≡ false) × ((gate_run log n).valid ≡ false)
  unfolding gate_run expected gate_new
  run_cases log zero = inl (refl, refl)
  run_cases log (suc n) = elim (run_cases log n) [
    | inr (bad, invalid) ↦
        inr (rw bad refl, sample_invalid (gate_run log n) (log n).number (log n).words invalid)
    | inl (good, e) ↦ elim (Bool-cases (entry_valid log n)) [
      | inl h ↦ inl (rw (good, h) refl, rw e (sample_expected log n h))
      | inr h ↦ inr (rw (good, h) refl, rw e (sample_refused log n h))
    ]
  ]

  module _ (rate : F → P → Bool) where
    unfoldable pub gate_complete : Gate F P → Bool
    gate_complete g = g.valid && g.next == 31 && rate g.first g.previous

    -- A log that is to be admitted.
    unfoldable pub log_admitted : Log → ℕ → Bool
    log_admitted log n =
        n == 31
        && all_below 31 (entry_valid log)
        && rate (keep_first (log 3).words) (keep_previous (log 30).words)

    complete_all : (log : Log) → gate_complete (gate_run log 31) ≡ log_admitted log 31
    unfolding gate_complete log_admitted expected
    complete_all log = elim (run_cases log 31) [
      | inl (good, e) ↦ rw (e, good) refl
      | inr (bad, invalid) ↦ rw (bad, invalid) refl
    ]

    complete_other :
        (log : Log) (n : ℕ) → (n == 31) ≡ false → gate_complete (gate_run log n) ≡ false
    unfolding gate_complete expected
    complete_other log n h = elim (run_cases log n) [
      | inl (good, e) ↦ rw (e, h) refl
      | inr (bad, invalid) ↦ rw invalid refl
    ]

    -- The gate admits the logs that are to be admitted.
    pub gate_complete_iff :
        (log : Log) (n : ℕ) → gate_complete (gate_run log n) ≡ log_admitted log n
    unfolding log_admitted
    gate_complete_iff log n = elim (Bool-cases (n == 31)) [
      | inl h ↦ let e : n ≡ 31 = (==_iff _ _).0 h in rw e (complete_all log)
      | inr h ↦ rw h (complete_other log n h)
    ]
