-- ===== src/BootFiles.antt =====
-- rp1_chainboot_poc/src/boot_files.rs: reading required and optional files. The storage crates are the
-- record `StorageApi` over the state `S`. Log lines are left out.
use Prim.Native.String.{String}
use rp1_bootloader_po_c.Base.{
  ℕ, not, if◌then◌else◌, List, Option, none, some, Result, BootError, ok, err, length, sd_mount,
  sd_open, sd_read, sd_file_not_found,
}
use rp1_bootloader_po_c.Base.{◌==◌}
use rp1_bootloader_po_c.Rp1Image.{checksum32}

-- `StorageDeviceErr`, as far as `map_open_error` tells its cases apart.
pub data OpenError : Type 0 where
  not_found other_file_system io_error still_used : OpenError

pub record StorageApi (S : Type 0) : Type 1 where
  pub Storage : Type 0
  pub Handle : Type 0
  pub from_ready_block_device : S → Option Storage × S
  pub open_read : Storage → String → S → Result OpenError Handle × S
  pub size : Handle → S → Option ℕ × S
  pub read : Handle → ℕ → S → Option (List ℕ) × S

map_open_error : OpenError → BootError
map_open_error not_found = sd_file_not_found
map_open_error other_file_system = sd_open
map_open_error io_error = sd_open
map_open_error still_used = sd_open

module _ {S : Type 0} (storage : StorageApi S) where
  abbrev pub Outcome : Type 0 → Type 0
  Outcome A = Result BootError A × S

  checked_length : ℕ → Option (List ℕ) × S → Outcome (List ℕ)
  checked_length expected_size (none, s) = (err sd_read, s)
  checked_length expected_size (some bytes, s) =
      if not (length bytes == expected_size) then (err sd_read, s) else (ok bytes, s)

  -- `FileHandle::read` takes an alignment.
  read_sized : StorageApi.Handle storage → Option ℕ × S → Outcome (List ℕ)
  read_sized handle (none, s) = (err sd_read, s)
  read_sized handle (some expected_size, s) = checked_length expected_size (storage.read handle 8 s)

  read_opened : Result OpenError (StorageApi.Handle storage) × S → Outcome (List ℕ)
  read_opened (err e, s) = (err (map_open_error e), s)
  read_opened (ok handle, s) = read_sized handle (storage.size handle s)

  read_mounted : String → Option (StorageApi.Storage storage) × S → Outcome (List ℕ)
  read_mounted path (none, s) = (err sd_mount, s)
  read_mounted path (some dev, s) = read_opened (storage.open_read dev path s)

  read_file : String → S → Outcome (List ℕ)
  read_file path s = read_mounted path (storage.from_ready_block_device s)

  read_required_file : String → S → Outcome (List ℕ)
  read_required_file path s = read_file path s

  found_or_none : Outcome (List ℕ) → Outcome (Option (List ℕ))
  found_or_none (ok bytes, s) = (ok (some bytes), s)
  found_or_none (err sd_file_not_found, s) = (ok none, s)
  found_or_none (err e, s) = (err e, s)

  pub read_optional_file : String → S → Outcome (Option (List ℕ))
  read_optional_file path s = found_or_none (read_file path s)

  -- The checksum is only logged.
  probe_file : String → S → Outcome ℕ
  probe_file path s = elim (read_file path s).0 [
    | ok bytes ↦ (ok (checksum32 bytes), (read_file path s).1)
    | err e ↦ (err e, (read_file path s).1)
  ]
