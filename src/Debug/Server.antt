-- ===== src/Debug/Server.antt =====
-- `GdbServer` and `MailboxCommand` of rp1_chainboot_poc/src/rp1_debug_stub.rs: the memory of RP1 through
-- a transport in chunks of 64 bytes, and the commands of the mailbox. The transport is the record
-- `Transport` over the state `T`.
use rp1_bootloader_po_c.Base.{arith}
use rp1_bootloader_po_c.Base.{
  ℕ, zero, suc, ◌+◌, ◌-◌, ◌%◌, ◌^◌, ◌≤◌, ◌<◌, ◌≡◌, min, ◌||◌, ltb, leb, if◌then◌else◌, List, [],
  ◌++◌, Result, ok, err, length, take, drop,
}
use rp1_bootloader_po_c.Base.{◌==◌}
use rp1_bootloader_po_c.Base.Words.{from_le_bytes, to_le_bytes}
use rp1_bootloader_po_c.Debug.Snapshot.{
  DebugAbi, TransportError, transport_timeout, unsupported, bad_address,
}

pub record Transport (T : Type 0) : Type 0 where
  pub read_mem : ℕ → ℕ → T → Result TransportError (List ℕ) × T
  pub write_mem : ℕ → List ℕ → T → Result TransportError (Unit {0}) × T
  pub delay_micros : ℕ → T → T

-- `translate_rp1_addr`: the bounds of the shared SRAM.
translate_rp1_addr : ℕ → ℕ → ℕ → ℕ → Result TransportError ℕ
translate_rp1_addr sram_base sram_size addr len =
    let off = addr - 0x20000000 in
    if ltb addr 0x20000000
      || leb (2 ^ 64) (off + len)
      || ltb (min sram_size 0x10000) (off + len)
      || leb (2 ^ 64) (sram_base + off)
    then err bad_address
    else ok (sram_base + off)

-- An address that is translated lies in the shared SRAM with all the bytes asked for.
translate_rp1_addr_inside :
    (sram_base sram_size addr len at : ℕ)
    → translate_rp1_addr sram_base sram_size addr len ≡ ok at
    → (sram_base ≤ at) × (at + len ≤ sram_base + min sram_size 0x10000) × (at < 2 ^ 64)
unfolding translate_rp1_addr
translate_rp1_addr_inside sram_base sram_size addr len at e = ground arith

module _ {T : Type 0} (transport : Transport T) (abi : DebugAbi) where
  abbrev pub Outcome : Type 0 → Type 0
  Outcome A = Result TransportError A × T

  pub after : {A B : Type 0} → Outcome A → (A → T → Outcome B) → Outcome B
  after (ok a, t) f = f a t
  after (err e, t) f = (err e, t)

  -- The loops of `read_mem32` and `write_mem32`: what is left, from the offset on. A round moves a byte
  -- at least, so the length is fuel enough.
  read_chunks : ℕ → ℕ → ℕ → List ℕ → T → Outcome (List ℕ)
  read_chunks zero addr left got t = (ok got, t)
  read_chunks (suc fuel) addr left got t =
      let n = min 64 left in
      if left == 0
      then (ok got, t)
      else after (transport.read_mem (addr % 2 ^ 32) n t)
          (λ bytes u. read_chunks fuel (addr + n) (left - n) (got ++ bytes) u)

  pub read_mem32 : ℕ → ℕ → T → Outcome (List ℕ)
  read_mem32 addr len t = read_chunks len addr len [] t

  write_chunks : ℕ → ℕ → List ℕ → T → Outcome (Unit {0})
  write_chunks zero addr bytes t = (ok tt, t)
  write_chunks (suc fuel) addr bytes t =
      let n = min 64 (length bytes) in
      if length bytes == 0
      then (ok tt, t)
      else after (transport.write_mem (addr % 2 ^ 32) (take n bytes) t)
          (λ done u. write_chunks fuel (addr + n) (drop n bytes) u)

  pub write_mem32 : ℕ → List ℕ → T → Outcome (Unit {0})
  write_mem32 addr bytes t = write_chunks (length bytes) addr bytes t

  pub read_u32 : ℕ → T → Outcome ℕ
  read_u32 off t =
      after (read_mem32 (abi.mailbox_addr + off) 4 t) (λ bytes u. (ok (from_le_bytes bytes), u))

  pub write_u32 : ℕ → ℕ → T → Outcome (Unit {0})
  write_u32 off value t = write_mem32 (abi.mailbox_addr + off) (to_le_bytes 4 value) t

  -- The wait for the acknowledgement of a command, for at most `k` looks.
  wait_ack : ℕ → ℕ → T → Outcome ℕ
  wait_ack zero seq t = (err transport_timeout, t)
  wait_ack (suc k) seq t = after (read_u32 20 t) (λ ack u.
      let status = read_u32 44 u in
      let more = wait_ack k seq (transport.delay_micros 10 u) in
      if ack == seq then status else more)

  -- `MailboxCommand::command_with_args`, with the next sequence number.
  pub command_with_args : ℕ → ℕ → ℕ → ℕ → T → Outcome ℕ × ℕ
  command_with_args seq command arg0 arg1 t =
      let next = (seq + 1) % 2 ^ 32 in
      (
        after (write_u32 36 arg0 t) (λ d1 t1. after (write_u32 40 arg1 t1) (λ d2 t2.
            after (write_u32 32 command t2)
              (λ d3 t3. after (write_u32 16 next t3) (λ d4 t4. wait_ack 100000 next t4)))),
        next,
      )

  status_ok_only : Outcome ℕ → Outcome (Unit {0})
  status_ok_only (ok status, t) =
      if status == abi.status_ok then (ok tt, t) else (err unsupported, t)
  status_ok_only (err e, t) = (err e, t)

  -- `GdbServer::command_no_payload`.
  pub gdb_command : ℕ → ℕ → T → Outcome (Unit {0})
  gdb_command seq command t =
      after (write_u32 32 command t)
        (λ d1 t1. after (write_u32 16 seq t1) (λ d2 t2. status_ok_only (wait_ack 100000 seq t2)))
