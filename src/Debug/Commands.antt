-- ===== src/Debug/Commands.antt =====
-- `run_snapshot_command` of rp1_chainboot_poc/src/rp1_debug_stub.rs: a snapshot asked for over the
-- mailbox, read back and checked.
use rp1_bootloader_po_c.Base.{
  ℕ, ◌+◌, ◌%◌, ◌^◌, ltb, if◌then◌else◌, not, ◌||◌, ◌==◌, List, Option, none, some, Result, ok, err,
  ◌>>=◌,
}
use rp1_bootloader_po_c.Debug.Snapshot.{
  DebugAbi, TransportError, unsupported, snapshot_max_len, read_snapshot_allowlisted,
  snapshot_request_checksum, validate_snapshot_response, validate_core_status_entries,
  validate_peripheral_status_entries,
}
use rp1_bootloader_po_c.Debug.Server.{Transport, Outcome, after, read_u32, command_with_args}

-- The sample number of a peripheral snapshot only goes to the log.
pub data SnapshotValidation : Type 0 where
  core : ℕ → ℕ → SnapshotValidation
  peripheral : SnapshotValidation
  empty : SnapshotValidation

abbrev nothing_read : Result TransportError (Unit {0}) → Result TransportError (Option ℕ)
nothing_read (ok done) = ok none
nothing_read (err e) = err e

abbrev timer_read : Result TransportError ℕ → Result TransportError (Option ℕ)
timer_read (ok timer) = ok (some timer)
timer_read (err e) = err e

validate_entries : DebugAbi → List ℕ → ℕ → SnapshotValidation → Result TransportError (Option ℕ)
validate_entries abi bytes count (core previous_ack mailbox_size) =
    nothing_read (validate_core_status_entries abi bytes count previous_ack mailbox_size)
validate_entries abi bytes count peripheral =
    timer_read (validate_peripheral_status_entries bytes count)
validate_entries abi bytes count empty = if count == 0 then ok none else err unsupported

validate_data :
    DebugAbi → ℕ → ℕ → ℕ → SnapshotValidation → List ℕ → Result TransportError (Option ℕ)
validate_data abi snapshot_id sequence expected_status validation bytes = do
  count ← validate_snapshot_response bytes snapshot_id sequence expected_status
  validate_entries abi bytes count validation

module _ {T : Type 0} (transport : Transport T) (abi : DebugAbi) where
  -- The answer, whose length is read first.
  fetch : ℕ → ℕ → ℕ → SnapshotValidation → ℕ → T → Outcome transport abi (Option ℕ)
  fetch snapshot_id sequence expected_status validation len t =
      if ltb snapshot_max_len len
      then (err unsupported, t)
      else after transport abi (transport.read_mem (abi.mailbox_addr + 124) len t)
          (λ bytes u. (validate_data abi snapshot_id sequence expected_status validation bytes, u))

  -- With the last sequence number of the commands, and the one that they go on with.
  pub run_snapshot_command :
      ℕ → ℕ → ℕ → SnapshotValidation → T → Outcome transport abi (Option ℕ) × ℕ
  run_snapshot_command seq snapshot_id expected_status validation t =
      let sequence = (seq + 1) % 2 ^ 32 in
      let (answer, next) =
        command_with_args transport abi seq read_snapshot_allowlisted snapshot_id
          (snapshot_request_checksum abi sequence snapshot_id) t in
      (
        after transport abi answer (λ status u.
            let len = read_u32 transport abi 120 u in
            if not (status == expected_status) || not (next == sequence)
            then (err unsupported, u)
            else after transport abi len
                (λ n v. fetch snapshot_id sequence expected_status validation n v)),
        next,
      )
