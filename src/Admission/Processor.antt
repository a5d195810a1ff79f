-- ===== src/Admission/Processor.antt =====
-- `AmpProc1Admission` of rp1_chainboot_poc/src/amp_proc1_admission.rs: the service gate of phase 1,
-- and that processor 1 stays held in reset.
use rp1_bootloader_po_c.Admission.Gate.{all_below}
use rp1_bootloader_po_c.Admission.Gate.{Words}
use rp1_bootloader_po_c.Admission.Gate.{Log}
use rp1_bootloader_po_c.Base.{
  ℕ, zero, suc, ◌^◌, ◌≡◌, refl, Bool, true, ◌&&◌, not, bit_and, List, [], ◌∷◌,
}
use rp1_bootloader_po_c.Base.{◌==◌}
use rp1_bootloader_po_c.Admission.Service.{
  ServiceAdmission, service_new, service_sample, service_complete, service_run,
  service_log_admitted, service_complete_iff,
}

pub record AmpProc1Admission : Type 0 where
  pub service : ServiceAdmission
  pub held : Bool

unfoldable pub proc1_new : AmpProc1Admission
proc1_new = record { service = service_new; held = true }

-- What a sample reads besides the record: the reset control and done registers and the status
-- words.
pub record Reset : Type 0 where
  pub ctrl : ℕ
  pub done : ℕ
  pub status : List ℕ

unfoldable pub all_zero : List ℕ → Bool
all_zero [] = true
all_zero (x ∷ xs) = x == 0 && all_zero xs

unfoldable pub is_held : Reset → Bool
is_held r = not (bit_and r.ctrl (2 ^ 31) == 0) && bit_and r.done (2 ^ 31) == 0 && all_zero r.status

-- The new state, and the returned value.
unfoldable pub proc1_sample : AmpProc1Admission → ℕ → Words → Reset → AmpProc1Admission × Bool
proc1_sample g number words r =
    let held = g.held && is_held r in
    let service = service_sample 1 g.service number words in
    (record { service = service; held = held }, service.valid && held)

unfoldable pub proc1_complete : AmpProc1Admission → Bool
proc1_complete g = g.held && service_complete g.service

unfoldable pub proc1_run : Log → (ℕ → Reset) → ℕ → AmpProc1Admission
proc1_run log resets zero = proc1_new
proc1_run log resets (suc n) =
    (proc1_sample (proc1_run log resets n) (log n).number (log n).words (resets n)).0

proc1_run_fields :
    (log : Log) (resets : ℕ → Reset) (n : ℕ)
    → ((proc1_run log resets n).service ≡ service_run 1 log n)
      × ((proc1_run log resets n).held ≡ all_below n (λ i. is_held (resets i)))
unfolding proc1_run proc1_sample proc1_new service_run
proc1_run_fields log resets zero = (refl, refl)
proc1_run_fields log resets (suc n) =
    let (s, h) = proc1_run_fields log resets n in (rw s refl, rw h refl)

-- The gate completes exactly on the logs that the phase-1 service gate is to admit and that have
-- processor 1 held in reset, not released and with a cleared status at every sample.
pub proc1_complete_iff :
    (log : Log) (resets : ℕ → Reset) (n : ℕ)
    → proc1_complete (proc1_run log resets n)
      ≡ (all_below n (λ i. is_held (resets i)) && service_log_admitted 1 log n)
unfolding proc1_complete
proc1_complete_iff log resets n =
    let (s, h) = proc1_run_fields log resets n in rw (s, h, service_complete_iff 1 log n) refl
