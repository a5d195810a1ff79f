-- ===== src/Debug/Tests.antt =====
-- Inputs for rp1_chainboot_poc/src/rp1_debug_stub.rs.
use rp1_bootloader_po_c.Base.{ℕ, ◌≡◌, List, [], ◌∷◌, ◌++◌, arith}
use rp1_bootloader_po_c.Debug.Packets.{
  send_packet, read_packet, accepted, read_packet-send_packet, AllPlain,
}

abbrev read_registers : List ℕ
read_registers = 103 ∷ []

abbrev ack : List ℕ
ack = 43 ∷ []

read_packet-send_packet_example :
    read_packet (send_packet read_registers ++ ack) ≡ accepted read_registers ack
unfolding AllPlain
read_packet-send_packet_example =
    read_packet-send_packet read_registers ack (omega arith, tt) (omega arith)
