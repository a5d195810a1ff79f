-- ===== src/Admission/Tests.antt =====
-- Runs of the admission gates on a log that the source's tests admit.
use rp1_bootloader_po_c.Admission.Gate.{rate_valid}
use rp1_bootloader_po_c.Admission.Gate.{Words}
use rp1_bootloader_po_c.Admission.Gate.{Log}
use rp1_bootloader_po_c.Admission.Gate.{moved}
use rp1_bootloader_po_c.Admission.Gate.{all_below}
use rp1_bootloader_po_c.Base.{ℕ, ◌+◌, ◌*◌, ◌≡◌, refl, true, ◌&&◌, if◌then◌else◌, [], ◌∷◌}
use rp1_bootloader_po_c.Base.{◌==◌}
use rp1_bootloader_po_c.Admission.Service.{
  service_complete, service_run, service_log_admitted, service_complete_iff, service_new,
  service_sample, service_header, service_running, service_advances, service_rate,
}
use rp1_bootloader_po_c.Admission.Processor.{
  Reset, proc1_complete, proc1_run, is_held, proc1_complete_iff,
}

-- `record` of the tests of amp_service_admission.rs.
abbrev words_of : ℕ → Words
words_of n i =
    if i == 0
    then 0x31304741
    else if i == 1
    then 1
    else if i == 2
    then 5
    else if i == 5
    then 100000000
    else if i == 8
    then (n + 1) * 1000
    else if i == 9
    then (n + 1) * 2000
    else if i == 11
    then (n + 1) * 1000000
    else if i == 14
    then n + 1
    else if i == 18
    then 512
    else if i == 19
    then 0x13579bdf
    else if i == 22
    then 99999
    else if i == 29
    then 2
    else if i == 30
    then 0x2000a6e0
    else if i == 31
    then 0x2000f000
    else if i == 32
    then 128
    else if i == 33
    then 128
    else if i == 42
    then 2
    else if i == 43
    then 1024
    else 0

abbrev good_log : Log
good_log n = record { number = n; words = words_of n }

good_log_completes : service_complete (service_run 0 good_log 31) ≡ true
unfolding service_complete service_run service_new service_sample service_header service_running
    service_advances service_rate moved rate_valid
good_log_completes = refl

service_complete_iff_example :
    service_complete (service_run 0 good_log 31) ≡ service_log_admitted 0 good_log 31
service_complete_iff_example = service_complete_iff 0 good_log 31

abbrev resets : ℕ → Reset
resets n = record { ctrl = 0x80000000; done = 0; status = 0 ∷ 0 ∷ [] }

proc1_complete_iff_example :
    proc1_complete (proc1_run good_log resets 31)
    ≡ (all_below 31 (λ i. is_held (resets i)) && service_log_admitted 1 good_log 31)
proc1_complete_iff_example = proc1_complete_iff good_log resets 31
