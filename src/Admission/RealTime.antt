-- ===== src/Admission/RealTime.antt =====
-- rp1_chainboot_poc/src/scmi_linux_admission.rs: `R1Admission`, which keeps the whole first and last
-- running sample, and the checks of the console clock and of a device tree's envelope.
use rp1_bootloader_po_c.Base.Words.{from_be_bytes}
use rp1_bootloader_po_c.Base.{slice}
use rp1_bootloader_po_c.Base.{eq_bytes}
use rp1_bootloader_po_c.Base.{==_iff}
use rp1_bootloader_po_c.Base.{ltb_sound}
use rp1_bootloader_po_c.Base.{and_true}
use rp1_bootloader_po_c.Base.{◌<◌}
use rp1_bootloader_po_c.Base.{arith}
use rp1_bootloader_po_c.Base.{length}
use rp1_bootloader_po_c.Admission.Gate.{gate_complete_iff}
use rp1_bootloader_po_c.Admission.Gate.{gate_new}
use rp1_bootloader_po_c.Admission.Gate.{entry_valid}
use rp1_bootloader_po_c.Admission.Gate.{in_range}
use rp1_bootloader_po_c.Admission.Gate.{moved}
use rp1_bootloader_po_c.Admission.Gate.{rate_valid}
use rp1_bootloader_po_c.Base.{◌||◌}
use rp1_bootloader_po_c.Admission.Gate.{all_below}
use rp1_bootloader_po_c.Admission.Gate.{gate_sample}
use rp1_bootloader_po_c.Admission.Gate.{log_admitted}
use rp1_bootloader_po_c.Admission.Gate.{Gate}
use rp1_bootloader_po_c.Admission.Gate.{Words}
use rp1_bootloader_po_c.Admission.Gate.{Log}
use rp1_bootloader_po_c.Admission.Gate.{gate_run}
use rp1_bootloader_po_c.Admission.Gate.{gate_complete}
use rp1_bootloader_po_c.Base.{not}
use rp1_bootloader_po_c.Base.{
  ℕ, zero, suc, ◌+◌, ◌-◌, ◌*◌, ◌/◌, ◌%◌, ◌^◌, ◌≡◌, refl, Bool, true, ◌&&◌, ltb, leb, if◌then◌else◌,
  bit_and, List, [], ◌∷◌,
}
use rp1_bootloader_po_c.Base.{◌==◌}

abbrev pub R1Admission : Type 0
R1Admission = Gate Words Words

abbrev zeros : Words
zeros i = 0

unfoldable pub r1_new : R1Admission
r1_new = record { next = 0; valid = true; first = zeros; previous = zeros }

-- The checks of every sample.
unfoldable pub r1_header : Words → Bool
r1_header w =
    w 0 == 0x31305452
    && w 1 == 1
    && not (w 2 == 0xffffffff)
    && w 3 == 0
    && w 4 == 0
    && not (w 192 == 0x31544652)

unfoldable pub r1_system : Words → Bool
r1_system w =
    w 2 == 5
    && (w 19 == 0x13579bdf && w 20 == 0)
    && w 28 == 0
    && bit_and (w 29) 3 == 2
    && bit_and (w 30) 7 == 0
    && in_range 0x2000e000 0x2000f001 (w 31)
    && bit_and (w 21) 0x700 == 0
    && w 22 + 1 == w 5 / 1000
    && w 39 == 1
    && ltb 0 (w 17)
    && ltb 0 (w 50)
    && in_range 1 4096 (w 18)
    && (ltb 0 (w 32)
        && ltb 0 (w 33)
        && ltb 0 (w 34)
        && ltb 0 (w 35)
        && ltb 0 (w 36)
        && ltb 0 (w 37)
        && ltb 0 (w 38))

-- The two stacks.
unfoldable pub r1_stacks : Words → Bool
r1_stacks w =
    w 70 == 0
    && w 86 == 0
    && w 65 == 0
    && w 81 == 0
    && bit_and (w 66) 3 == 2
    && bit_and (w 82) 3 == 2
    && not (w 67 == w 83)
    && bit_and (w 67) 7 == 0
    && bit_and (w 83) 7 == 0
    && in_range 0x20000000 0x2000e000 (w 67)
    && in_range 0x20000000 0x2000e000 (w 83)

-- The checks of a sample of the running system.
unfoldable pub r1_running : Words → Bool
r1_running w = r1_system w && r1_stacks w

unfoldable pub all_moved : List ℕ → Words → Words → Bool
all_moved [] previous w = true
all_moved (i ∷ is) previous w = moved (w i) (previous i) && all_moved is previous w

unfoldable pub r1_advances : Words → Words → Bool
unfolding all_moved
r1_advances = all_moved (8 ∷ 9 ∷ 14 ∷ 15 ∷ 17 ∷ 49 ∷ 50 ∷ 64 ∷ 80 ∷ [])

unfoldable pub r1_sample : R1Admission → ℕ → Words → R1Admission
r1_sample g number w =
    let v = g.valid && (number == g.next && ltb number 31 && r1_header w) in
    if leb 3 number
    then (if number == 3
        then record {
          next = (g.next + 1) % 2 ^ 32;
          valid = v && r1_running w;
          first = w;
          previous = w;
        }
        else record {
          next = (g.next + 1) % 2 ^ 32;
          valid = v && r1_running w && r1_advances g.previous w;
          first = g.first;
          previous = w;
        })
    else record { next = (g.next + 1) % 2 ^ 32; valid = v; first = g.first; previous = g.previous }

unfoldable pub r1_rate : Words → Words → Bool
r1_rate first previous = rate_valid (previous 8) (first 8) (previous 11) (first 11)

unfoldable pub r1_complete : R1Admission → Bool
r1_complete g = g.valid && g.next == 31 && r1_rate g.first g.previous

-- The gate after the first `n` samples of a log.
unfoldable pub r1_run : Log → ℕ → R1Admission
r1_run log zero = r1_new
r1_run log (suc n) = r1_sample (r1_run log n) (log n).number (log n).words

unfoldable pub r1_entry_valid : Log → ℕ → Bool
r1_entry_valid log n =
    (log n).number == n
    && ltb n 31
    && r1_header (log n).words
    && (ltb n 3 || r1_running (log n).words)
    && (ltb n 4 || r1_advances (log (n - 1)).words (log n).words)

-- What the whole log has to be.
unfoldable pub r1_log_admitted : Log → ℕ → Bool
r1_log_admitted log n =
    n == 31 && all_below 31 (r1_entry_valid log) && r1_rate (log 3).words (log 30).words

r1_run-gate :
    (log : Log) (n : ℕ)
    → r1_run log n ≡ gate_run zeros zeros (λ w. w) (λ w. w) r1_header r1_running r1_advances log n
unfolding r1_run gate_run r1_sample gate_sample r1_new gate_new
r1_run-gate log zero = refl
r1_run-gate log (suc n) = rw (r1_run-gate log n) refl

-- The gate completes exactly on the logs of 31 samples in which sample `n` is numbered `n` and has
-- the record's header, from sample 3 on passes the checks of a running system with its two stacks,
-- from sample 4 on shows all nine counters moved since the sample before, and in which the time
-- between samples 3 and 30 is 950 to 1050 per tick of word 8.
pub r1_complete_iff : (log : Log) (n : ℕ) → r1_complete (r1_run log n) ≡ r1_log_admitted log n
unfolding r1_complete r1_log_admitted r1_entry_valid gate_complete log_admitted entry_valid
r1_complete_iff log n =
    rw (r1_run-gate log n) (
      gate_complete_iff zeros zeros (λ w. w) (λ w. w) r1_header r1_running r1_advances r1_rate log
        n)

-- PL011's rounded divisor for 115200 baud.
unfoldable pub console_clock_matches : ℕ → ℕ → ℕ → ℕ → Bool
console_clock_matches firmware_hz linux_hz ibrd fbrd =
    not (firmware_hz == 0)
    && firmware_hz == linux_hz
    && in_range 1 0x10000 ibrd
    && ltb fbrd 64
    && ibrd * 64 + fbrd == (linux_hz * 4 + 57600) / 115200

console_clock_quotient :
    (hz ibrd fbrd : ℕ)
    → console_clock_matches hz hz ibrd fbrd ≡ true
    → (fbrd < 64) × (ibrd * 64 + fbrd ≡ (hz * 4 + 57600) / 115200)
unfolding console_clock_matches
console_clock_quotient hz ibrd fbrd h =
    let (h, quotient) = and_true _ _ h in
    let (h, small) = and_true _ _ h in (ltb_sound _ _ small, (==_iff _ _).0 quotient)

-- The divisor registers are determined by the clock: two matching settings are the same.
pub console_clock_matches_unique :
    (hz ibrd fbrd ibrd2 fbrd2 : ℕ)
    → console_clock_matches hz hz ibrd fbrd ≡ true
    → console_clock_matches hz hz ibrd2 fbrd2 ≡ true
    → (ibrd ≡ ibrd2) × (fbrd ≡ fbrd2)
console_clock_matches_unique hz ibrd fbrd ibrd2 fbrd2 h k =
    let (small, e) = console_clock_quotient hz ibrd fbrd h in
    let (small2, e2) = console_clock_quotient hz ibrd2 fbrd2 k in (omega arith, omega arith)

-- The magic number, an aligned address, and a total size that is the length.
unfoldable pub dtb_envelope_valid : List ℕ → ℕ → Bool
dtb_envelope_valid bytes address =
    bit_and address 7 == 0
    && leb 40 (length bytes)
    && eq_bytes (slice bytes 0 4) (0xd0 ∷ 0x0d ∷ 0xfe ∷ 0xed ∷ [])
    && from_be_bytes (slice bytes 4 8) == length bytes
