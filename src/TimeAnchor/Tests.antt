-- ===== src/TimeAnchor/Tests.antt =====
-- Readings of a timer whose low word wraps around, and a series of samples.
use rp1_bootloader_po_c.TimeAnchor.{valid}
use rp1_bootloader_po_c.TimeAnchor.{is_valid}
use rp1_bootloader_po_c.TimeAnchor.{read_raw-IsReading}
use rp1_bootloader_po_c.TimeAnchor.{change_error}
use rp1_bootloader_po_c.TimeAnchor.{counter_read}
use rp1_bootloader_po_c.TimeAnchor.{own_error}
use rp1_bootloader_po_c.TimeAnchor.{read_raw}
use rp1_bootloader_po_c.TimeAnchor.{before}
use rp1_bootloader_po_c.TimeAnchor.{samples_ordered}
use rp1_bootloader_po_c.TimeAnchor.{IsReading}
use rp1_bootloader_po_c.TimeAnchor.{Sample}
use rp1_bootloader_po_c.TimeAnchor.{sample_error}
use rp1_bootloader_po_c.TimeAnchor.{raw64}
use rp1_bootloader_po_c.Base.{ℕ, zero, suc, ◌+◌, ◌*◌, ◌≤◌, ◌<◌, ◌≡◌, refl, none, arith}

abbrev ticking : ℕ → ℕ
ticking t = 0xfffffffe + t

read_raw-IsReading_example : IsReading ticking 3 1 0 (read_raw (counter_read ticking) 0)
read_raw-IsReading_example = read_raw-IsReading ticking 0 (λ i. omega arith)

abbrev sample_at : ℕ → Sample
sample_at n = record {
  host_before = n * 10;
  host_after = n * 10 + 5;
  cntfrq = 54000000;
  cntvoff_before = 7;
  cntvoff_after = 7;
  raw = record { high_before = 2; low = n; high_after = 2; attempts = 1 };
  map_error = none;
}

three_good : (n : ℕ) → n < 3 → sample_error (sample_at n) (before sample_at n) ≡ valid
unfolding sample_error before own_error change_error is_valid raw64
three_good zero h = refl
three_good (suc zero) h = refl
three_good (suc (suc zero)) h = refl
three_good (suc (suc (suc n))) h = absurd (omega arith)

samples_ordered_example :
    (5 ≤ 20)
    × (0 ≤ 5)
    × (raw64 (sample_at 0).raw ≤ raw64 (sample_at 2).raw)
    × ((sample_at 0).cntfrq ≡ (sample_at 2).cntfrq)
samples_ordered_example = samples_ordered sample_at 3 three_good 0 1 (omega arith)
