-- ===== src/Admission/Service.antt =====
-- `ServiceAdmission` of rp1_chainboot_poc/src/amp_service_admission.rs: 31 samples of the service
-- firmware's 256-word record, of which it remembers the words 8, 9, 14 and 11 of the last and 8,
-- 11 and 14 of the first running one.
use rp1_bootloader_po_c.Admission.Gate.{gate_complete_iff}
use rp1_bootloader_po_c.Admission.Gate.{gate_new}
use rp1_bootloader_po_c.Admission.Gate.{entry_valid}
use rp1_bootloader_po_c.Admission.Gate.{gate_sample}
use rp1_bootloader_po_c.Admission.Gate.{log_admitted}
use rp1_bootloader_po_c.Base.{◌||◌}
use rp1_bootloader_po_c.Admission.Gate.{all_below}
use rp1_bootloader_po_c.Admission.Gate.{gate_run}
use rp1_bootloader_po_c.Admission.Gate.{gate_complete}
use rp1_bootloader_po_c.Base.{not}
use rp1_bootloader_po_c.Admission.Gate.{in_range}
use rp1_bootloader_po_c.Admission.Gate.{moved}
use rp1_bootloader_po_c.Admission.Gate.{Gate}
use rp1_bootloader_po_c.Admission.Gate.{Words}
use rp1_bootloader_po_c.Admission.Gate.{rate_valid}
use rp1_bootloader_po_c.Admission.Gate.{Log}
use rp1_bootloader_po_c.Base.{
  ℕ, zero, suc, ◌+◌, ◌-◌, ◌/◌, ◌%◌, ◌^◌, ◌≡◌, refl, Bool, true, ◌&&◌, ltb, leb, if◌then◌else◌,
  bit_and,
}
use rp1_bootloader_po_c.Base.{◌==◌}

-- `first: [u32; 3]` and `previous: [u32; 4]`.
abbrev pub ServiceAdmission : Type 0
ServiceAdmission = Gate (ℕ × ℕ × ℕ) (ℕ × ℕ × ℕ × ℕ)

unfoldable pub service_new : ServiceAdmission
service_new = record { next = 0; valid = true; first = (0, 0, 0); previous = (0, 0, 0, 0) }

-- The checks of every sample.
unfoldable pub service_header : ℕ → Words → Bool
service_header phase w =
    w 0 == 0x31304741
    && w 1 == 1
    && not (w 2 == 0xffffffff)
    && (w 3 == 0 && w 4 == 0)
    && not (w 192 == 0x31544652)
    && leb phase 1
    && (w 42 == 2 && w 43 == 1024 && w 44 == phase)

-- The checks of a sample of the running system.
unfoldable pub service_running : Words → Bool
service_running w =
    w 2 == 5
    && (w 19 == 0x13579bdf && w 20 == 0)
    && w 28 == 0
    && bit_and (w 29) 3 == 2
    && bit_and (w 30) 7 == 0
    && in_range 0x20000000 0x2000e000 (w 30)
    && in_range 0x2000e000 0x2000f001 (w 31)
    && bit_and (w 21) 0x700 == 0
    && leb 1000 (w 5)
    && w 22 + 1 == w 5 / 1000
    && in_range 1 3969 (w 18)
    && (in_range 32 513 (w 32) && in_range 32 513 (w 33))
    && (w 34 == 0 && w 35 == 0 && w 36 == 0 && w 37 == 0 && w 38 == 0)
    && w 64 == 0
    && w 80 == 0
    && w 45 == 0

-- `[8,9,14]` against the remembered words.
unfoldable pub service_advances : ℕ × ℕ × ℕ × ℕ → Words → Bool
service_advances (a, b, c, d) w = moved (w 8) a && moved (w 9) b && moved (w 14) c

unfoldable pub service_sample : ℕ → ServiceAdmission → ℕ → Words → ServiceAdmission
service_sample phase g number w =
    let v = g.valid && (number == g.next && ltb number 31 && service_header phase w) in
    if leb 3 number
    then (if number == 3
        then record {
          next = (g.next + 1) % 2 ^ 32;
          valid = v && service_running w;
          first = (w 8, w 11, w 14);
          previous = (w 8, w 9, w 14, w 11);
        }
        else record {
          next = (g.next + 1) % 2 ^ 32;
          valid = v && service_running w && service_advances g.previous w;
          first = g.first;
          previous = (w 8, w 9, w 14, w 11);
        })
    else record { next = (g.next + 1) % 2 ^ 32; valid = v; first = g.first; previous = g.previous }

unfoldable pub service_rate : ℕ × ℕ × ℕ → ℕ × ℕ × ℕ × ℕ → Bool
service_rate (f0, f1, f2) (p0, p1, p2, p3) = rate_valid p0 f0 p3 f1

unfoldable pub service_complete : ServiceAdmission → Bool
service_complete g = g.valid && g.next == 31 && service_rate g.first g.previous

-- The gate after the first `n` samples of a log.
unfoldable pub service_run : ℕ → Log → ℕ → ServiceAdmission
service_run phase log zero = service_new
service_run phase log (suc n) =
    service_sample phase (service_run phase log n) (log n).number (log n).words

unfoldable pub service_kept : Words → ℕ × ℕ × ℕ × ℕ
service_kept w = (w 8, w 9, w 14, w 11)

unfoldable pub service_entry_valid : ℕ → Log → ℕ → Bool
service_entry_valid phase log n =
    (log n).number == n
    && ltb n 31
    && service_header phase (log n).words
    && (ltb n 3 || service_running (log n).words)
    && (ltb n 4 || service_advances (service_kept (log (n - 1)).words) (log n).words)

-- What the whole log has to be.
unfoldable pub service_log_admitted : ℕ → Log → ℕ → Bool
service_log_admitted phase log n =
    n == 31
    && all_below 31 (service_entry_valid phase log)
    && service_rate ((log 3).words 8, (log 3).words 11, (log 3).words 14)
        (service_kept (log 30).words)

service_run-gate :
    (phase : ℕ) (log : Log) (n : ℕ)
    → service_run phase log n
      ≡ gate_run
          (0, 0, 0)
          (0, 0, 0, 0)
          (λ w. (w 8, w 11, w 14))
          service_kept
          (service_header phase)
          service_running
          service_advances
          log
          n
unfolding service_run gate_run service_sample gate_sample service_new gate_new service_kept
service_run-gate phase log zero = refl
service_run-gate phase log (suc n) = rw (service_run-gate phase log n) refl

-- The gate, which keeps seven words, completes exactly on the logs of 31 samples in which sample
-- `n` is numbered `n`, has the header of the phase, passes the checks of a running system from
-- sample 3 on and shows the counters 8, 9 and 14 moved since the sample before from sample 4 on,
-- and in which the time between samples 3 and 30 is 950 to 1050 per tick of word 8.
pub service_complete_iff :
    (phase : ℕ) (log : Log) (n : ℕ)
    → service_complete (service_run phase log n) ≡ service_log_admitted phase log n
unfolding service_complete service_log_admitted service_entry_valid gate_complete log_admitted
    entry_valid service_kept
service_complete_iff phase log n = rw (service_run-gate phase log n) (
    gate_complete_iff (0, 0, 0) (0, 0, 0, 0) (λ w. (w 8, w 11, w 14)) service_kept
      (service_header phase) service_running service_advances service_rate log n)
