-- ===== src/NetBoot/Tests.antt =====
-- A network boot without the reload of RP1, from the first transfer to the jump.
use rp1_bootloader_po_c.DtbPatch.{be64}
use rp1_bootloader_po_c.DtbPatch.{be64}
use rp1_bootloader_po_c.NetBoot.Load.{log_rp1_elf_file_selection}
use rp1_bootloader_po_c.NetBoot.Load.{log_rp1_elf_file_selection}
use rp1_bootloader_po_c.NetBoot.Flow.{in_memory}
use rp1_bootloader_po_c.NetBoot.{server_error}
use rp1_bootloader_po_c.NetBoot.{TftpError}
use rp1_bootloader_po_c.NetBoot.{TftpApi}
use rp1_bootloader_po_c.NetBoot.Load.{Build}
use rp1_bootloader_po_c.NetBoot.Flow.{BoardApi}
use rp1_bootloader_po_c.NetBoot.Flow.{Jump}
use rp1_bootloader_po_c.Base.{
  ℕ, ◌^◌, ◌≤◌, ◌<◌, ◌≢◌, true, false, if◌then◌else◌, List, [], ◌∷◌, ◌++◌, Option, none, some,
  Result, ok, err, replicate, arith,
}
use rp1_bootloader_po_c.Base.{◌==◌}
use rp1_bootloader_po_c.Base.Words.{to_le_bytes}
use rp1_bootloader_po_c.DeviceTree.{DeviceTreeEditApi}
use rp1_bootloader_po_c.Placement.{Memory}
use rp1_bootloader_po_c.Dhcp.{Ipv4Addr, NetworkBootLease, dhcp_opt66}
use rp1_bootloader_po_c.Gzip.{Inflate}
use rp1_bootloader_po_c.Rp1Image.{ImageFeatures}
use rp1_bootloader_po_c.Rp1Image.Materialize.{Materialized}
use rp1_bootloader_po_c.Rp1Note.{NoteAbi}
use rp1_bootloader_po_c.Policy.Abi.{Rp1Abi}
use rp1_bootloader_po_c.NetBoot.Ports.{port_of, port_of-fresh}
use rp1_bootloader_po_c.NetBoot.Flow.{in_memory}

port_of-fresh_example :
    (49152 ≤ port_of 20000) × (port_of 20000 < 65536) × (port_of 20000 ≢ port_of 20003)
port_of-fresh_example = port_of-fresh 20000 3 (omega arith) (omega arith)

abbrev elf : List ℕ
elf =
    (0x7f ∷ 69 ∷ 76 ∷ 70 ∷ 1 ∷ 1 ∷ replicate 12 0)
    ++ (to_le_bytes 2 40
        ++ (replicate 4 0
            ++ (to_le_bytes 4 0x2000_0005
                ++ (to_le_bytes 4 52
                    ++ (replicate 10 0
                        ++ (to_le_bytes 2 32
                            ++ (to_le_bytes 2 1
                                ++ (replicate 6 0
                                    ++ (to_le_bytes 4 1
                                        ++ (to_le_bytes 4 84
                                            ++ (to_le_bytes 4 0x2000_0000
                                                ++ (to_le_bytes 4 0x2000_0000
                                                    ++ (to_le_bytes 4 8
                                                        ++ (to_le_bytes 4 16
                                                            ++ (to_le_bytes 4 5
                                                            ++ (to_le_bytes 4 4
                                                            ++ (to_le_bytes 4 0x2000_1000
                                                            ++ to_le_bytes 4
                                                            0x2000_0005)))))))))))))))))

abbrev profile : ImageFeatures
profile = record {
  allow_local_dsram_vector_stack = false;
  amp_proc1_profile = true;
  amp_observation = false;
  amp_proc1 = false;
}

abbrev numbered : Rp1Abi
numbered = record {
  bit = λ n. 2 ^ n;
  dev_gpio = 0;
  dev_uart0 = 1;
  dev_uart1 = 2;
  dev_i2c0 = 3;
  dev_i2c1 = 4;
  dev_spi0 = 5;
  dev_pio0 = 6;
  dev_pio1 = 7;
  dev_dma = 8;
  dev_timer = 9;
}

abbrev small_abi : NoteAbi
small_abi = record {
  note_magic = replicate 8 77;
  note_name = 82 ∷ [];
  note_type_boot_v1 = 1;
  note_abi_version = 1;
  boot_info_size = 80;
  version_non_pio = 2;
}

-- force_boot, and an owner table that gives the PIO devices to RP1.
abbrev text : List ℕ
text =
    102 ∷ 111 ∷ 114 ∷ 99 ∷ 101 ∷ 95 ∷ 98 ∷ 111 ∷ 111 ∷ 116 ∷ 32 ∷ 61 ∷ 32 ∷ 116 ∷ 114 ∷ 117 ∷ 101
    ∷ 32 ∷ 35 ∷ 32 ∷ 100 ∷ 101 ∷ 98 ∷ 117 ∷ 103 ∷ 10 ∷ 91 ∷ 111 ∷ 119 ∷ 110 ∷ 101 ∷ 114 ∷ 93 ∷ 10
    ∷ 103 ∷ 112 ∷ 105 ∷ 111 ∷ 61 ∷ 108 ∷ 105 ∷ 110 ∷ 117 ∷ 120 ∷ 10 ∷ 117 ∷ 97 ∷ 114 ∷ 116 ∷ 48 ∷ 61
    ∷ 108 ∷ 105 ∷ 110 ∷ 117 ∷ 120 ∷ 10 ∷ 117 ∷ 97 ∷ 114 ∷ 116 ∷ 49 ∷ 61 ∷ 108 ∷ 105 ∷ 110 ∷ 117
    ∷ 120 ∷ 10 ∷ 105 ∷ 50 ∷ 99 ∷ 48 ∷ 61 ∷ 108 ∷ 105 ∷ 110 ∷ 117 ∷ 120 ∷ 10 ∷ 105 ∷ 50 ∷ 99 ∷ 49
    ∷ 61 ∷ 108 ∷ 105 ∷ 110 ∷ 117 ∷ 120 ∷ 10 ∷ 115 ∷ 112 ∷ 105 ∷ 48 ∷ 61 ∷ 108 ∷ 105 ∷ 110 ∷ 117
    ∷ 120 ∷ 10 ∷ 112 ∷ 105 ∷ 111 ∷ 48 ∷ 61 ∷ 34 ∷ 114 ∷ 112 ∷ 49 ∷ 34 ∷ 10 ∷ 112 ∷ 105 ∷ 111 ∷ 49
    ∷ 61 ∷ 34 ∷ 114 ∷ 112 ∷ 49 ∷ 34 ∷ 10 ∷ 100 ∷ 109 ∷ 97 ∷ 61 ∷ 108 ∷ 105 ∷ 110 ∷ 117 ∷ 120 ∷ 10
    ∷ 116 ∷ 105 ∷ 109 ∷ 101 ∷ 114 ∷ 61 ∷ 108 ∷ 105 ∷ 110 ∷ 117 ∷ 120 ∷ 10 ∷ []

-- A header with an image size of 128 bytes and no text offset.
abbrev header : List ℕ
header = replicate 16 0 ++ (128 ∷ replicate 39 0) ++ (0x41 ∷ 0x52 ∷ 0x4d ∷ 0x64 ∷ replicate 4 0)

-- The server has the kernel, the firmware and the configuration, asked for in this order.
abbrev served : ℕ → Result TftpError (List ℕ)
served port =
    if port == 49152
    then ok header
    else if port == 49153
    then ok elf
    else if port == 49154
    then ok text
    else err (server_error 1)

abbrev server : TftpApi Memory
server = record {
  tftp_port = 69;
  download_into = λ config max s. (served config.local_port, s);
  now_us = λ s. (0, s);
  try_recv_frame = λ s. (false, s);
  diagnose = λ s. s;
}

abbrev build : Build
build = record {
  abi = numbered;
  note_abi = small_abi;
  from_utf8 = λ bytes. some bytes;
  features = profile;
  sealed = λ bytes. true;
  drain_looks = 3;
}

abbrev address : Ipv4Addr
address = record { b0 = 10; b1 = 0; b2 = 0; b3 = 1 }

abbrev our_lease : NetworkBootLease
our_lease = record {
  client_ip = address;
  subnet_mask = none;
  router = none;
  tftp_server_ip = address;
  tftp_server_source = dhcp_opt66;
}

abbrev board : BoardApi Memory
board = record {
  memory = λ s. s;
  set_memory = λ m s. m;
  init_tftp_gem = λ again s. (ok tt, s);
  dhcp_acquire = λ s. (ok our_lease, s);
  release_after_quiesce = λ s. (ok tt, s);
  release_after_linux_handoff = λ s. (ok tt, s);
  start_rp1_image = λ image s. (ok tt, s);
  clean_lines = λ lines s. s;
  invalidate_icache_all = λ s. s;
}

-- A tree that keeps one property per node.
abbrev one_node : DeviceTreeEditApi (Unit {0})
one_node = record {
  Owned = ℕ → Option (List ℕ);
  into_owned = λ p. some (λ i. none);
  get_or_create_node_by_path = λ t p. some (0, t);
  find_owned_by_path = λ t p. some 0;
  set_property = λ t id name v. some (λ i. if i == id then some v else t i);
  into_dtb_box = λ t. some (1 ∷ 2 ∷ 3 ∷ []);
}

abbrev no_inflate : Inflate
no_inflate = record { run = λ input max. ([], none) }

abbrev no_segments : List ℕ → ℕ → ℕ → Option Materialized
no_segments elf_bytes base max = none

abbrev jumped : Jump
jumped = record { entry = 0x600_0000; dtb = 0x2020_0000 }
