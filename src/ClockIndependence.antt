-- ===== src/ClockIndependence.antt =====
-- rp1_chainboot_poc/src/rp1_clock_independence.rs: the record that the RP1 clock test leaves in
-- shared SRAM, its checksum and its validation. A record is the function from an index below 160
-- to the word.
use rp1_bootloader_po_c.Base.{◌∙◌}
use rp1_bootloader_po_c.Base.{◌∙◌}
pub mod Checksum
pub mod Run
mod Tests
use native.Mathlib.Nat.{pow-suc}
use rp1_bootloader_po_c.Base.{
  ℕ, zero, suc, ◌+◌, ◌-◌, ◌*◌, ◌/◌, ◌%◌, ◌^◌, ◌≤◌, ◌<◌, ◌≡◌, refl, Bool, true, false, ◌&&◌, not,
  ltb, leb, if◌then◌else◌, bit_or, bit_and, bit_xor, List, [], ◌∷◌, arith, Bool-cases, inl, inr,
}
use rp1_bootloader_po_c.Base.{◌==◌}
use rp1_bootloader_po_c.Base.Bits.{bit_or-add, bit_or_comm, pow_pos}

abbrev pub Words : Type 0
Words = ℕ → ℕ

abbrev pub all_ones : ℕ
all_ones = 0xffffffff

abbrev pub checksum_seed : ℕ
checksum_seed = 0x811c9dc5

abbrev pub checksum_mul : ℕ
checksum_mul = 0x9e3779b1

rotate_left : ℕ → ℕ → ℕ
rotate_left x n = x * 2 ^ n % 2 ^ 32 + x / 2 ^ (32 - n)

pub mix : ℕ → ℕ → ℕ
mix value word = rotate_left (bit_xor value word) 5 * checksum_mul % 2 ^ 32

-- The loop over the indices, `index` the next of the `k` left. The completion word is left out.
checksum_loop : Words → ℕ → ℕ → ℕ → ℕ
checksum_loop words zero index value = value
checksum_loop words (suc k) index value =
    checksum_loop words k (index + 1) (if index == 7 then value else mix value (words index))

pub checksum : Words → ℕ
checksum words = checksum_loop words 159 0 checksum_seed

u64_at : Words → ℕ → ℕ
u64_at words index = bit_or (words index) (words (index + 1) * 2 ^ 32)

all_absent : List ℕ → Words → Bool
all_absent [] words = true
all_absent (c ∷ cs) words =
    words (24 + c * 4 + 2) == all_ones && words (72 + c * 4 + 2) == all_ones && all_absent cs words

clock_snapshots_valid : Words → Bool
clock_snapshots_valid words =
    all_absent (3 ∷ 4 ∷ 5 ∷ 6 ∷ 7 ∷ 10 ∷ []) words
    && (words 72 == 0x80000001 && words 73 == 4 && words 74 == 20 && words 75 == 0)
    && words 17 == 0x00077010
    && words 96 == 0x10000840
    && words 97 == 1
    && not (bit_and (words 99) 1 == 0)
    && words 154 == 0x10000840
    && words 155 == 1
    && words 156 == all_ones
    && not (bit_and (words 157) 1 == 0)

pwm_snapshots_valid : Words → Bool
pwm_snapshots_valid words =
    words 21 == 1
    && words 22 == 1
    && words 120 == 0x11000840
    && words 121 == 1
    && words 122 == 0
    && not (bit_and (words 123) 1 == 0)
    && words 130 == 5000000
    && words 131 == 1250000
    && words 132 == 0x11000840
    && words 133 == 1
    && words 134 == 0
    && not (bit_and (words 135) 1 == 0)
    && words 142 == 50000
    && words 143 == 37500

spi_snapshot_valid : Words → Bool
spi_snapshot_valid words =
    words 20 == 20
    && words 23 == 1
    && not (words 144 == 0)
    && words 145 == 0x00070100
    && words 146 == 1
    && words 147 == 2000
    && bit_and (words 153) 0xffff == 20
    && leb 20 (words 153 / 2 ^ 16)

header_valid : Words → Bool
header_valid words = words 0 == 0x50523143 && words 1 == 1 && words 2 == 160

sequence_valid : Words → ℕ → Bool
sequence_valid words sequence = words 3 == sequence && words 4 == sequence && words 5 == sequence

done_valid : Words → Bool
done_valid words = words 6 == 5 && words 7 == 0x454e4f44

-- `end - start` is only computed when `end >= start`.
timing_valid : Words → Bool
timing_valid words =
    let start = u64_at words 10 in
    let end = u64_at words 12 in
    let elapsed = u64_at words 14 in
    let target = words 158 in
    target == 2200000
    && not (start == 0)
    && leb start end
    && elapsed == end - start
    && leb target elapsed

uart_valid : Words → Bool
uart_valid words = words 18 == 35 && words 19 == 10

checksum_valid : Words → Bool
checksum_valid words = words 159 == checksum words

-- `if test { valid |= 1 << bit; }`.
set_if : Bool → ℕ → ℕ → ℕ
set_if test bit valid = if test then bit_or valid (2 ^ bit) else valid

-- The mask that `log_and_validate` builds.
validation_mask : Words → ℕ → ℕ
validation_mask words sequence =
    let v0 = set_if (header_valid words) 0 0 in
    let v1 = set_if (sequence_valid words sequence) 1 v0 in
    let v2 = set_if (done_valid words) 2 v1 in
    let v3 = set_if (words 9 == 0) 3 v2 in
    let v4 = set_if (words 8 == 0xffff) 4 v3 in
    let v5 = set_if (timing_valid words) 5 v4 in
    let v6 = set_if (clock_snapshots_valid words) 6 v5 in
    let v7 = set_if (uart_valid words) 7 v6 in
    let v8 = set_if (pwm_snapshots_valid words) 8 v7 in
    let v9 = set_if (spi_snapshot_valid words) 9 v8 in set_if (checksum_valid words) 10 v9

-- Whether `log_and_validate` reports `pass`.
log_and_validate : Words → ℕ → Bool
log_and_validate words sequence = validation_mask words sequence == 2 ^ 11 - 1

-- Setting the bit on top of those set so far.
IsMask : ℕ → Bool → ℕ → Type 0
IsMask k all v = (v < 2 ^ k) × ((v == 2 ^ k - 1) ≡ all)

mask_start : IsMask 0 true 0
unfolding IsMask
mask_start = (omega arith, refl)

shifted_test : (p v : ℕ) → v < p → (p + v == p * 2 - 1) ≡ (v == p - 1)
shifted_test p v h = ground arith

below_test : (p v : ℕ) → v < p → (v == p * 2 - 1) ≡ false
below_test p v h = ground arith

and-true : (b : Bool) → (b && true) ≡ b
and-true true = refl
and-true false = refl

and-false : (b : Bool) → (b && false) ≡ false
and-false true = refl
and-false false = refl

set_if-IsMask :
    (k : ℕ) (all test : Bool) (v : ℕ)
    → IsMask k all v
    → IsMask (suc k) (all && test) (set_if test k v)
unfolding IsMask set_if
set_if-IsMask k all true v (small, full) =
    let one : 1 * 2 ^ k ≡ 2 ^ k = omega arith in
    let e : bit_or v (2 ^ k) ≡ 2 ^ k + v =
      bit_or_comm v (2 ^ k) ∙ (rw one at (bit_or-add k 1 v small)) in
    rw (e, pow-suc 2 k, and-true all) (omega (arith, small), shifted_test (2 ^ k) v small ∙ full)
set_if-IsMask k all false v (small, full) =
    rw (pow-suc 2 k, and-false all) (omega (arith, small), below_test (2 ^ k) v small)

-- The test reports `pass` exactly when all eleven checks hold.
log_and_validate_iff :
    (words : Words) (sequence : ℕ)
    → log_and_validate words sequence ≡ (
        header_valid words
        && sequence_valid words sequence
        && done_valid words
        && words 9 == 0
        && words 8 == 0xffff
        && timing_valid words
        && clock_snapshots_valid words
        && uart_valid words
        && pwm_snapshots_valid words
        && spi_snapshot_valid words
        && checksum_valid words)
unfolding log_and_validate validation_mask IsMask
log_and_validate_iff words sequence =
    let m0 = set_if-IsMask 0 true (header_valid words) 0 mask_start in
    let m1 = set_if-IsMask 1 _ (sequence_valid words sequence) _ m0 in
    let m2 = set_if-IsMask 2 _ (done_valid words) _ m1 in
    let m3 = set_if-IsMask 3 _ (words 9 == 0) _ m2 in
    let m4 = set_if-IsMask 4 _ (words 8 == 0xffff) _ m3 in
    let m5 = set_if-IsMask 5 _ (timing_valid words) _ m4 in
    let m6 = set_if-IsMask 6 _ (clock_snapshots_valid words) _ m5 in
    let m7 = set_if-IsMask 7 _ (uart_valid words) _ m6 in
    let m8 = set_if-IsMask 8 _ (pwm_snapshots_valid words) _ m7 in
    let m9 = set_if-IsMask 9 _ (spi_snapshot_valid words) _ m8 in
    (set_if-IsMask 10 _ (checksum_valid words) _ m9).1
