-- ===== src/Start/Validated.antt =====
-- The owner policy that `enforce_rp1_elf_note_policy_with_config` of rp1_chainboot_poc/src/main.rs
-- returns.
use rp1_bootloader_po_c.Base.{
  ℕ, ◌≡◌, List, Option, ok, bind-eq-ok, guard-eq-ok, ok_injective, missing_rp1_note,
}
use rp1_bootloader_po_c.Rp1Note.{
  NoteAbi, Rp1BootInfo, Rp1NoteState, valid, missing, invalid, parse_rp1_note,
}
use rp1_bootloader_po_c.Config.{Rp1Config, parse_optional_config}
use rp1_bootloader_po_c.Policy.Abi.{Rp1Abi}
use rp1_bootloader_po_c.Policy.{Rp1DtbPolicy, note, config, from_note, from_config, validate}
use rp1_bootloader_po_c.Start.{
  policy_of_note, config_or_invalid, enforce_rp1_elf_note_policy_with_config,
}

from_note-validate :
    (abi : Rp1Abi) (info : Rp1BootInfo) (p : Rp1DtbPolicy)
    → from_note abi info ≡ ok p
    → validate abi p ≡ ok tt
unfolding from_note
from_note-validate abi info p e =
    let q : Rp1DtbPolicy = record {
      owner_rp1 = info.owner_rp1;
      owner_linux = info.owner_linux;
      owner_disabled = info.owner_disabled;
      source = note;
    } in
    let (t, h, e1) = bind-eq-ok (validate abi q) (λ u. ok q) e in rw (← ok_injective e1) h

from_config-validate :
    (abi : Rp1Abi) (c : Rp1Config) (p : Rp1DtbPolicy)
    → from_config abi c ≡ ok p
    → validate abi p ≡ ok tt
unfolding from_config
from_config-validate abi c p e =
    let q : Rp1DtbPolicy = record {
      owner_rp1 = c.owner_rp1;
      owner_linux = c.owner_linux;
      owner_disabled = c.owner_disabled;
      source = config;
    } in
    let (t1, e1) = guard-eq-ok c.owner_table_seen _ _ e in
    let (t, h, e2) = bind-eq-ok (validate abi q) (λ u. ok q) e1 in rw (← ok_injective e2) h

module _ (abi : Rp1Abi) (note_abi : NoteAbi) (from_utf8 : List ℕ → Option (List ℕ)) where
  policy_of_note-validate :
      (state : Rp1NoteState) (cfg_file : Option (List ℕ)) (p : Rp1DtbPolicy)
      → policy_of_note abi note_abi from_utf8 state cfg_file ≡ ok p
      → validate abi p ≡ ok tt
  unfolding policy_of_note
  policy_of_note-validate (valid info) cfg_file p e = from_note-validate abi info p e
  policy_of_note-validate missing cfg_file p e =
      let (cfg, h, e1) =
        bind-eq-ok (config_or_invalid (parse_optional_config abi from_utf8 cfg_file)) _ e in
      let (t, e2) = guard-eq-ok cfg.force_boot missing_rp1_note (from_config abi cfg) e1 in
      from_config-validate abi cfg p e2
  policy_of_note-validate invalid cfg_file p e = cc

  -- Whatever the firmware file and the configuration hold, a policy that the boot goes on with has
  -- passed the validation of owner tables.
  pub enforce_rp1_elf_note_policy_with_config-validate :
      (elf_bytes : List ℕ) (cfg_file : Option (List ℕ)) (p : Rp1DtbPolicy)
      → enforce_rp1_elf_note_policy_with_config abi note_abi from_utf8 elf_bytes cfg_file ≡ ok p
      → validate abi p ≡ ok tt
  unfolding enforce_rp1_elf_note_policy_with_config
  enforce_rp1_elf_note_policy_with_config-validate elf_bytes cfg_file p e =
      policy_of_note-validate (parse_rp1_note note_abi elf_bytes) cfg_file p e
