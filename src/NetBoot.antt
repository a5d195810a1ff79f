-- ===== src/NetBoot.antt =====
-- rp1_chainboot_poc/src/net_boot.rs: the TFTP transfers of the network boot. The network device, the
-- clock and the crate net are the record `TftpApi` over the state `S`. Log lines are left out; the
-- diagnostics that a failure reads from the device are `diagnose`.
use rp1_bootloader_po_c.Base.{refl, ◌≡◌}
use rp1_bootloader_po_c.Base.{◌≡◌}
pub mod Ports
pub mod Load
pub mod Flow
pub mod Keeps
pub mod Served
pub mod Entry
mod Tests
use Prim.Native.String.{String}
use rp1_bootloader_po_c.Base.{
  ℕ, zero, suc, ◌+◌, ◌-◌, ◌*◌, ◌/◌, ◌%◌, ◌^◌, Bool, ltb, if◌then◌else◌, List, [], ◌∷◌, Option, none,
  some, Result, BootError, ok, err, take, tftp, dhcp, dhcp_timeout, dhcp_invalid_packet,
  dhcp_no_tftp_server, rp1_config_invalid,
}
use rp1_bootloader_po_c.Base.{◌==◌}
use rp1_bootloader_po_c.Dhcp.{
  Ipv4Addr, NetworkBootLease, DhcpError, timeout, invalid_packet, unexpected_message,
  no_tftp_server, encode, transmit,
}

pub tftp_timeout_us : ℕ
tftp_timeout_us = 3000000

pub tftp_max_retries : ℕ
tftp_max_retries = 3

abbrev pub tftp_local_port_base : ℕ
tftp_local_port_base = 49152

abbrev pub tftp_rp1_elf_staging_max : ℕ
tftp_rp1_elf_staging_max = 524288

abbrev pub tftp_rp1_config_staging_max : ℕ
tftp_rp1_config_staging_max = 4096

abbrev pub tftp_kernel_staging_max : ℕ
tftp_kernel_staging_max = 33554432

-- `TftpSessionPorts`.
pub record TftpSessionPorts : Type 0 where
  pub next : ℕ

unfoldable pub ports_new : TftpSessionPorts
ports_new = record { next = tftp_local_port_base }

unfoldable pub port_alloc : TftpSessionPorts → ℕ × TftpSessionPorts
port_alloc ports =
    let next = (ports.next + 1) % 2 ^ 16 in
    (ports.next, record { next = if next == 0 then tftp_local_port_base else next })

-- `tftp::TftpConfig`.
pub record TftpConfig : Type 0 where
  pub local_ip : Ipv4Addr
  pub server_ip : Ipv4Addr
  pub server_port : ℕ
  pub local_port : ℕ
  pub filename : String
  pub timeout_us : ℕ
  pub max_retries : ℕ

-- The errors of a transfer, as far as the boot tells them apart.
pub data TftpError : Type 0 where
  server_error : ℕ → TftpError
  other_error : TftpError

pub record TftpApi (S : Type 0) : Type 0 where
  pub tftp_port : ℕ
  pub download_into : TftpConfig → ℕ → S → Result TftpError (List ℕ) × S
  pub now_us : S → ℕ × S
  pub try_recv_frame : S → Bool × S
  pub diagnose : S → S

pub map_dhcp_error : DhcpError → BootError
map_dhcp_error timeout = dhcp_timeout
map_dhcp_error invalid_packet = dhcp_invalid_packet
map_dhcp_error unexpected_message = dhcp_invalid_packet
map_dhcp_error no_tftp_server = dhcp_no_tftp_server
map_dhcp_error encode = dhcp
map_dhcp_error transmit = dhcp

-- A step of the boot: the device and the ports change whether it succeeds or not.
abbrev pub World : Type 0 → Type 0
World S = S × TftpSessionPorts

abbrev pub Step : Type 0 → Type 0 → Type 0
Step S A = World S → Result BootError A × World S

-- `?`.
unfoldable pub after :
    {S A B : Type 0} → Result BootError A × World S → (A → Step S B) → Result BootError B × World S
after (ok a, w) f = f a w
after (err e, w) f = (err e, w)

pub after-ok :
    {S A B : Type 0} (m : Result BootError A × World S) (f : A → Step S B) {c : B}
    → (after m f).0 ≡ ok c
    → (a : A) × (m.0 ≡ ok a) × ((f a m.1).0 ≡ ok c)
unfolding after
after-ok (ok a, w) f e = (a, refl, e)
after-ok (err t, w) f e = absurd cc

-- The same, with the state that the whole leaves.
pub after-run :
    {S A B : Type 0} (m : Result BootError A × World S) (f : A → Step S B) {c : B}
    → (after m f).0 ≡ ok c
    → (a : A) × (m.0 ≡ ok a) × ((f a m.1).0 ≡ ok c) × ((after m f).1 ≡ (f a m.1).1)
unfolding after
after-run (ok a, w) f e = (a, refl, e, refl)
after-run (err t, w) f e = absurd cc

module _ {S : Type 0} (api : TftpApi S) (lease : NetworkBootLease) where
  unfoldable pub tftp_config : String → ℕ → TftpConfig
  unfolding tftp_timeout_us tftp_max_retries
  tftp_config filename local_port = record {
    local_ip = lease.client_ip;
    server_ip = lease.tftp_server_ip;
    server_port = api.tftp_port;
    local_port = local_port;
    filename = filename;
    timeout_us = tftp_timeout_us;
    max_retries = tftp_max_retries;
  }

  -- One transfer: the port is taken before it starts. `download_into` returns the bytes received, the
  -- first of the staging buffer.
  unfoldable pub transfer : String → ℕ → World S → Result TftpError (List ℕ) × World S
  transfer filename max_len (s, ports) =
      let (port, left) = port_alloc ports in
      let (result, t) = api.download_into (tftp_config filename port) max_len s in
      (result, (t, left))

  unfoldable pub required :
      Result TftpError (List ℕ) × World S → Result BootError (List ℕ) × World S
  required (ok bytes, w) = (ok bytes, w)
  required (err e, (s, ports)) = (err tftp, (api.diagnose s, ports))

  unfoldable pub download_tftp_required : String → ℕ → Step S (List ℕ)
  download_tftp_required filename max_len w = required (transfer filename max_len w)

  unfoldable pub optional :
      Result TftpError (List ℕ) × World S → Result BootError (Option (List ℕ)) × World S
  optional (ok bytes, w) = (ok (some bytes), w)
  optional (err (server_error code), (s, ports)) =
      if code == 1 then (ok none, (s, ports)) else (err tftp, (api.diagnose s, ports))
  optional (err other_error, (s, ports)) = (err tftp, (api.diagnose s, ports))

  unfoldable pub download_tftp_optional : String → ℕ → Step S (Option (List ℕ))
  download_tftp_optional filename max_len w = optional (transfer filename max_len w)

  unfoldable pub flush_tftp_transfer : Step S (Unit {0})
  flush_tftp_transfer w =
      after (download_tftp_optional "__rp1_tftp_flush__" tftp_rp1_config_staging_max w)
        (λ bytes u. (ok tt, u))

  -- The loop of `drain_rx` for at most `fuel` looks at the clock.
  unfoldable pub drain_loop : ℕ → ℕ → ℕ → S → S
  drain_loop zero start duration_us s = s
  drain_loop (suc fuel) start duration_us s =
      let (now, s1) = api.now_us s in
      let more = drain_loop fuel start duration_us (api.try_recv_frame s1).1 in
      if ltb ((now + 2 ^ 64 - start) % 2 ^ 64) duration_us then more else s1

  unfoldable pub drain_rx : ℕ → ℕ → World S → World S
  drain_rx fuel duration_us (s, ports) =
      let (start, s1) = api.now_us s in (drain_loop fuel start duration_us s1, ports)
