-- ===== src/Debug/Smoke.antt =====
-- `smoke_test_mailbox` of rp1_chainboot_poc/src/rp1_debug_stub.rs: the sequence of commands that tries
-- the mailbox before the server starts. The state is the transport with the last sequence number.
use rp1_bootloader_po_c.Base.{
  ℕ, ◌+◌, ◌||◌, not, ◌==◌, if◌then◌else◌, List, Option, Result, ok, err, ok_or, slice,
}
use rp1_bootloader_po_c.Base.Words.{from_le_bytes}
use rp1_bootloader_po_c.Debug.Snapshot.{DebugAbi, TransportError, unsupported}
use rp1_bootloader_po_c.Debug.Server.{Transport, Outcome, command_with_args}
use rp1_bootloader_po_c.Debug.Commands.{
  SnapshotValidation, core, peripheral, empty, run_snapshot_command,
}

abbrev legacy_read_snapshot_allowlisted : ℕ
legacy_read_snapshot_allowlisted = 7

abbrev status_bad_command : ℕ
status_bad_command = 1

abbrev status_bad_snapshot_id : ℕ
status_bad_snapshot_id = 4

abbrev snapshot_core_status : ℕ
snapshot_core_status = 0x52505301

abbrev snapshot_peripheral_status : ℕ
snapshot_peripheral_status = 0x52505302

abbrev snapshot_invalid_id : ℕ
snapshot_invalid_id = 0x525053fe

header_word : List ℕ → ℕ → ℕ
header_word header off = from_le_bytes (slice header off (off + 4))

module _ {T : Type 0} (transport : Transport T) (abi : DebugAbi) where
  abbrev Step : Type 0 → Type 0
  Step A = Result TransportError A × (T × ℕ)

  with_seq : {A : Type 0} → Outcome transport abi A × ℕ → Step A
  with_seq ((r, t), seq) = (r, (t, seq))

  next_step : {A B : Type 0} → Step A → (A → T × ℕ → Step B) → Step B
  next_step (ok a, st) f = f a st
  next_step (err e, st) f = (err e, st)

  -- A command without a payload that has to end with the given status.
  command_expecting : ℕ → ℕ → T × ℕ → Step (Unit {0})
  command_expecting command expected (t, seq) =
      next_step (with_seq (command_with_args transport abi seq command 0 0 t))
        (λ status st. if status == expected then (ok tt, st) else (err unsupported, st))

  ask_snapshot : ℕ → ℕ → SnapshotValidation → T × ℕ → Step (Option ℕ)
  ask_snapshot id expected_status validation (t, seq) =
      with_seq (run_snapshot_command transport abi seq id expected_status validation t)

  read_timer : T × ℕ → Step ℕ
  read_timer st =
      next_step (ask_snapshot snapshot_peripheral_status 0 peripheral st)
        (λ timer u. (ok_or timer unsupported, u))

  -- The timer has to have moved between two samples.
  two_samples : T × ℕ → Step (Unit {0})
  two_samples st = next_step (read_timer st) (λ first_timer u.
      next_step (read_timer u) (λ second_timer v.
        if first_timer == second_timer then (err unsupported, v) else (ok tt, v)))

  -- The snapshots between the two pings, the requests to be refused included.
  snapshots : ℕ → T × ℕ → Step (Unit {0})
  snapshots size st =
      next_step (ask_snapshot snapshot_core_status 0 (core st.1 size) st) (λ core_done s1.
        next_step (two_samples s1) (λ moved s2.
          next_step (ask_snapshot snapshot_invalid_id status_bad_snapshot_id empty s2)
            (λ refused. command_expecting legacy_read_snapshot_allowlisted status_bad_command)))

  try_commands : ℕ → T × ℕ → Step (Unit {0})
  try_commands size st =
      next_step (command_expecting abi.cmd_ping 0 st)
        (λ ping s1. next_step (snapshots size s1) (λ done. command_expecting abi.cmd_ping 0))

  judge_header : List ℕ → T → Step (Unit {0})
  judge_header header t =
      let size = header_word header 8 in
      let tried = try_commands size (t, 0) in
      if not (header_word header 0 == abi.magic)
        || not (header_word header 4 == abi.version)
        || not (size == abi.wire_size)
      then (err unsupported, (t, 0))
      else tried

  smoke_test_mailbox : T → Step (Unit {0})
  smoke_test_mailbox t =
      next_step (with_seq (transport.read_mem abi.mailbox_addr 32 t, 0))
        (λ header st. judge_header header st.0)
