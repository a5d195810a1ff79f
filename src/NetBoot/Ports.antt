-- ===== src/NetBoot/Ports.antt =====
-- The local ports that `TftpSessionPorts` of rp1_chainboot_poc/src/net_boot.rs gives to the transfers.
use rp1_bootloader_po_c.Base.{
  ℕ, zero, suc, ◌+◌, ◌%◌, ◌^◌, ◌≤◌, ◌<◌, ◌≡◌, ◌≢◌, refl, arith, if◌then◌else◌,
}
use rp1_bootloader_po_c.Base.{◌==◌}
use rp1_bootloader_po_c.NetBoot.{TftpSessionPorts, ports_new, port_alloc, tftp_local_port_base}

-- The ports after `n` transfers, and the port of transfer `n`.
ports_after : ℕ → TftpSessionPorts
ports_after zero = ports_new
ports_after (suc n) = (port_alloc (ports_after n)).1

pub port_of : ℕ → ℕ
port_of n = (port_alloc (ports_after n)).0

next_port :
    (n : ℕ) (next : ℕ)
    → next ≡ 49152 + n % 16384
    → (if (next + 1) % 2 ^ 16 == 0 then tftp_local_port_base else (next + 1) % 2 ^ 16)
      ≡ 49152 + suc n % 16384
next_port n next e = ground arith

port_of_next : (n : ℕ) → (ports_after n).next ≡ 49152 + n % 16384
unfolding ports_after port_alloc ports_new
port_of_next zero = refl
port_of_next (suc n) = next_port n (ports_after n).next (port_of_next n)

-- Every port lies in the range of dynamic ports, and two of any 16384 transfers in a row have
-- different ports.
pub port_of-fresh :
    (n d : ℕ)
    → 0 < d
    → d < 16384
    → (49152 ≤ port_of n) × (port_of n < 65536) × (port_of n ≢ port_of (n + d))
unfolding port_of port_alloc
port_of-fresh n d h k =
    let a = port_of_next n in
    let b = port_of_next (n + d) in (omega arith, omega arith, λ e. omega arith)
