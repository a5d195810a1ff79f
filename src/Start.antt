-- ===== src/Start.antt =====
-- rp1_chainboot_poc/src/main.rs: which owner policy a firmware file gets, and where RP1 starts.
pub mod FromSd
pub mod Validated
mod Tests
use rp1_bootloader_po_c.Base.{
  ℕ, bit_or, Bool, not, ◌||◌, List, Option, none, some, ◌==◌, if◌then◌else◌, Result, BootError, ok,
  err, guard, ok_or, ◌>>=◌, ◌>>◌, rp1_config_invalid, missing_rp1_note, invalid_rp1_note,
}
use rp1_bootloader_po_c.Rp1Image.{Rp1Image, ImageFeatures, is_valid_stack}
use rp1_bootloader_po_c.Rp1Note.{NoteAbi, Rp1NoteState, valid, missing, invalid, parse_rp1_note}
use rp1_bootloader_po_c.Config.{Rp1Config, parse_optional_config}
use rp1_bootloader_po_c.Policy.Abi.{Rp1Abi}
use rp1_bootloader_po_c.Policy.{Rp1DtbPolicy, from_note, from_config}

-- `map_err(|_| BootError::Rp1ConfigInvalid)`.
abbrev pub config_or_invalid : Result (Unit {0}) Rp1Config → Result BootError Rp1Config
config_or_invalid (ok cfg) = ok cfg
config_or_invalid (err t) = err rp1_config_invalid

module _ (abi : Rp1Abi) (note_abi : NoteAbi) (from_utf8 : List ℕ → Option (List ℕ)) where
  unfoldable pub policy_of_note : Rp1NoteState → Option (List ℕ) → Result BootError Rp1DtbPolicy
  policy_of_note (valid note) cfg_file = from_note abi note
  policy_of_note missing cfg_file = do
    cfg ← config_or_invalid (parse_optional_config abi from_utf8 cfg_file)
    guard cfg.force_boot missing_rp1_note
    from_config abi cfg
  policy_of_note invalid cfg_file = err invalid_rp1_note

  unfoldable pub enforce_rp1_elf_note_policy_with_config :
      List ℕ → Option (List ℕ) → Result BootError Rp1DtbPolicy
  enforce_rp1_elf_note_policy_with_config elf_bytes cfg_file =
      policy_of_note (parse_rp1_note note_abi elf_bytes) cfg_file

unfoldable pub apply_rp1_elf_start_contract :
    ImageFeatures → Rp1Image → Rp1Config → Result BootError Rp1Image
apply_rp1_elf_start_contract f image config =
    if config.rp1_start_contract_explicit
    then (do
      word ← ok_or config.rp1_entry_override rp1_config_invalid
      stack ← ok_or config.rp1_stack_override rp1_config_invalid
      let entry = bit_or word 1
      guard (not (entry == 1 || stack == 0 || not (is_valid_stack f stack))) rp1_config_invalid
      ok (record image { entry = entry; stack = stack }))
    else ok image
