-- ===== src/Admission.antt =====
-- The admission gates that watch the RP1 firmware before Linux starts:
-- rp1_chainboot_poc/src/amp_service_admission.rs, scmi_linux_admission.rs and
-- amp_proc1_admission.rs. `Gate` is what the gates share.
mod Gate
pub mod Service
pub mod RealTime
pub mod Processor
mod Tests
pub use Gate.*
