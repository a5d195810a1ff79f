-- ===== src/Debug/Handlers.antt =====
-- The packet handlers of `GdbServer` in rp1_chainboot_poc/src/rp1_debug_stub.rs: from a packet to the
-- bytes that answer it. Every handler takes the last sequence number and the state of the transport and
-- returns them behind the answer.
use rp1_bootloader_po_c.Base.{
  ℕ, ◌+◌, ◌-◌, ◌*◌, ◌%◌, ◌^◌, min, ltb, leb, if◌then◌else◌, Bool, ◌&&◌, ◌||◌, List, [], ◌∷◌, ◌++◌,
  Option, none, some, ok, err, length, take, drop, replicate, eq_bytes,
}
use Prim.Native.String.{String}
use rp1_bootloader_po_c.DtbPatch.{as_bytes}
use rp1_bootloader_po_c.Debug.Packets.{
  packet_buf_len, hex_bytes, decode_hex_bytes, split_byte, parse_addr_len, send_packet, Received,
  accepted, rejected, waiting, read_packet,
}
use rp1_bootloader_po_c.Debug.Snapshot.{DebugAbi}
use rp1_bootloader_po_c.Debug.Server.{
  Transport, Outcome, after, read_mem32, write_mem32, write_u32, gdb_command,
}

abbrev max_gdb_mem : ℕ
max_gdb_mem = 256

starts_with : List ℕ → String → Bool
starts_with packet prefix = eq_bytes (take (length (as_bytes prefix)) packet) (as_bytes prefix)

is_packet : List ℕ → String → Bool
is_packet packet text = eq_bytes packet (as_bytes text)

module _ {T : Type 0} (transport : Transport T) (abi : DebugAbi) where
  abbrev Answer : Type 0
  Answer = List ℕ × ℕ × T

  answer : String → ℕ → T → Answer
  answer text seq t = (send_packet (as_bytes text), seq, t)

  -- `command_no_payload` behind writes that may have failed; only a command that is reached takes a
  -- sequence number.
  run_command : ℕ → ℕ → Outcome transport abi (Unit {0}) → Outcome transport abi (Unit {0}) × ℕ
  run_command seq command (err e, t) = ((err e, t), seq)
  run_command seq command (ok done, t) =
      let next = (seq + 1) % 2 ^ 32 in (gdb_command transport abi next command t, next)

  -- The two arguments of a command.
  write_arguments : ℕ → ℕ → Outcome transport abi (Unit {0}) → Outcome transport abi (Unit {0})
  write_arguments addr len before = after transport abi before (λ d1 t1.
      after transport abi (write_u32 transport abi 36 addr t1)
        (λ d2 t2. write_u32 transport abi 40 len t2))

  -- The general registers, of which only the stack pointer and the program counter are known.
  register_bytes : Outcome transport abi (List ℕ) → List ℕ × T
  register_bytes (ok vector, t) = (
    replicate 52 0 ++ take 4 vector ++ replicate 4 0 ++ take 4 (drop 4 vector) ++ replicate 4 0,
    t,
  )
  register_bytes (err e, t) = (replicate 68 0, t)

  handle_read_regs : ℕ → T → Answer
  handle_read_regs seq t =
      let (regs, u) = register_bytes (read_mem32 transport abi 0x20000000 8 t) in
      (send_packet (hex_bytes regs), seq, u)

  reply_bytes : ℕ → Outcome transport abi (List ℕ) → Answer
  reply_bytes seq (ok bytes, t) = (send_packet (hex_bytes bytes), seq, t)
  reply_bytes seq (err e, t) = answer "E02" seq t

  reply_command : ℕ → Outcome transport abi (Unit {0}) × ℕ → Answer
  reply_command len ((ok done, t), seq) =
      reply_bytes seq (read_mem32 transport abi (abi.mailbox_addr + 124) len t)
  reply_command len ((err e, t), seq) = answer "E01" seq t

  -- The mailbox itself is read directly, all else by a command.
  read_request : ℕ → T → Option (ℕ × ℕ) → Answer
  read_request seq t none = answer "E00" seq t
  read_request seq t (some (addr, len)) =
      let direct = reply_bytes seq (read_mem32 transport abi addr len t) in
      let by_command =
        reply_command len
          (run_command seq abi.cmd_read_mem (write_arguments addr len (ok tt, t))) in
      if ltb max_gdb_mem len || ltb packet_buf_len (len * 2)
      then answer "E22" seq t
      else if leb abi.mailbox_addr addr
          && leb (min (addr + len) (2 ^ 32 - 1)) (abi.mailbox_addr + abi.wire_size)
      then direct
      else by_command

  handle_read_mem : ℕ → List ℕ → T → Answer
  handle_read_mem seq packet t = read_request seq t (parse_addr_len (drop 1 packet))

  reply_direct : ℕ → Outcome transport abi (Unit {0}) → Answer
  reply_direct seq (ok done, t) = answer "OK" seq t
  reply_direct seq (err e, t) = answer "E01" seq t

  -- A command that fails is followed by a direct write.
  reply_write : ℕ → List ℕ → Outcome transport abi (Unit {0}) × ℕ → Answer
  reply_write addr bytes ((ok done, t), seq) = answer "OK" seq t
  reply_write addr bytes ((err e, t), seq) =
      reply_direct seq (write_mem32 transport abi addr bytes t)

  write_decoded : ℕ → ℕ → ℕ → T → Option (List ℕ) → Answer
  write_decoded seq addr len t none = answer "E00" seq t
  write_decoded seq addr len t (some bytes) = reply_write addr bytes (
      run_command seq abi.cmd_write_mem
        (write_arguments addr len (write_mem32 transport abi (abi.mailbox_addr + 124) bytes t)))

  write_request : ℕ → List ℕ → T → Option (ℕ × ℕ) → Answer
  write_request seq digits t none = answer "E00" seq t
  write_request seq digits t (some (addr, len)) =
      let written = write_decoded seq addr len t (decode_hex_bytes (take (len * 2) digits) len) in
      if ltb max_gdb_mem len || ltb (length digits) (len * 2) then answer "E22" seq t else written

  write_parts : ℕ → T → Option (List ℕ × List ℕ) → Answer
  write_parts seq t none = answer "E00" seq t
  write_parts seq t (some (head, digits)) =
      write_request seq digits t (parse_addr_len (drop 1 head))

  handle_write_mem : ℕ → List ℕ → T → Answer
  handle_write_mem seq packet t = write_parts seq t (split_byte 58 packet)

  continue_answer : Outcome transport abi (Unit {0}) × ℕ → Answer
  continue_answer ((done, t), seq) = answer "S05" seq t

  handle_packet : ℕ → List ℕ → T → Answer
  handle_packet seq packet t =
      let registers = handle_read_regs seq t in
      let reading = handle_read_mem seq packet t in
      let writing = handle_write_mem seq packet t in
      let continuing = continue_answer (run_command seq abi.cmd_continue (ok tt, t)) in
      if is_packet packet "?"
      then answer "S05" seq t
      else if starts_with packet "qSupported"
      then answer "PacketSize=200;qXfer:features:read-" seq t
      else if is_packet packet "g"
      then registers
      else if starts_with packet "m"
      then reading
      else if starts_with packet "M"
      then writing
      else if is_packet packet "c" || is_packet packet "s"
      then continuing
      else if is_packet packet "D" || is_packet packet "k"
      then answer "OK" seq t
      else if starts_with packet "H" || starts_with packet "qAttached"
      then answer "OK" seq t
      else answer "" seq t

  -- A round of `run` on what has arrived: the bytes sent, with the acknowledgement, and what is left
  -- to read. With a packet that has not arrived in full it waits.
  serve_received : ℕ → T → Received → Option (Answer × List ℕ)
  serve_received seq t waiting = none
  serve_received seq t (rejected rest) = some ((45 ∷ [], seq, t), rest)
  serve_received seq t (accepted packet rest) =
      let (sent, next, u) = handle_packet seq packet t in some ((43 ∷ sent, next, u), rest)

  serve : ℕ → List ℕ → T → Option (Answer × List ℕ)
  serve seq input t = serve_received seq t (read_packet input)
