-- ===== src/Start/FromSd.antt =====
-- rp1_chainboot_poc/src/main.rs: the files of the SD card that the start reads, and the owner policy
-- that they give. The storage is that of `BootFiles`.
use rp1_bootloader_po_c.Base.{ℕ}
use Prim.Native.String.{String}
use rp1_bootloader_po_c.Base.{List, [], ◌∷◌, Option, none, some, ok, err}
use rp1_bootloader_po_c.BootFiles.{StorageApi, Outcome, read_optional_file}
use rp1_bootloader_po_c.Policy.Abi.{Rp1Abi}
use rp1_bootloader_po_c.Policy.{Rp1DtbPolicy}
use rp1_bootloader_po_c.Rp1Note.{NoteAbi, Rp1NoteState, valid, missing, invalid, parse_rp1_note}
use rp1_bootloader_po_c.Start.{enforce_rp1_elf_note_policy_with_config}

module _ {S : Type 0} (storage : StorageApi S) where
  -- What one path comes to: the file with its path, the rest of the paths, or an error.
  found_at :
      String
      → Outcome storage (Option (List ℕ))
      → (S → Outcome storage (Option (String × List ℕ)))
      → Outcome storage (Option (String × List ℕ))
  found_at path (ok (some bytes), s) others = (ok (some (path, bytes)), s)
  found_at path (ok none, s) others = others s
  found_at path (err e, s) others = (err e, s)

  read_first_optional_file_with_path : List String → S → Outcome storage (Option (String × List ℕ))
  read_first_optional_file_with_path [] s = (ok none, s)
  read_first_optional_file_with_path (path ∷ paths) s =
      found_at path (read_optional_file storage path s)
        (λ u. read_first_optional_file_with_path paths u)

  without_path : Outcome storage (Option (String × List ℕ)) → Outcome storage (Option (List ℕ))
  without_path (ok none, s) = (ok none, s)
  without_path (ok (some (path, bytes)), s) = (ok (some bytes), s)
  without_path (err e, s) = (err e, s)

  -- The same loop, which returns the bytes alone.
  read_first_optional_file : List String → S → Outcome storage (Option (List ℕ))
  read_first_optional_file paths s = without_path (read_first_optional_file_with_path paths s)

  -- The configuration is read only where the firmware has no note.
  config_file : Rp1NoteState → S → Outcome storage (Option (List ℕ))
  config_file missing s = read_optional_file storage "/config_rp1.txt" s
  config_file (valid note) s = (ok none, s)
  config_file invalid s = (ok none, s)

  module _ (abi : Rp1Abi) (note_abi : NoteAbi) (from_utf8 : List ℕ → Option (List ℕ)) where
    with_config : List ℕ → Outcome storage (Option (List ℕ)) → Outcome storage Rp1DtbPolicy
    with_config elf_bytes (ok cfg_file, s) =
        (enforce_rp1_elf_note_policy_with_config abi note_abi from_utf8 elf_bytes cfg_file, s)
    with_config elf_bytes (err e, s) = (err e, s)

    enforce_rp1_elf_note_policy_from_sd : List ℕ → S → Outcome storage Rp1DtbPolicy
    enforce_rp1_elf_note_policy_from_sd elf_bytes s =
        with_config elf_bytes (config_file (parse_rp1_note note_abi elf_bytes) s)
