-- ===== src/Lib.antt =====
-- A model of RP1-bootloader-PoC, the program that a Raspberry Pi 5 firmware starts, that loads a firmware
-- image into the RP1 south bridge and then boots Linux, from the SD card or over the network.
--
-- The parts, all below rp1_chainboot_poc/src, and the files that model them:
--   main.rs         Base.Outcome (BootError, the results), Heap (the global allocator); the ranges that
--                   main_flow checks are in Placement, its boot policy in BootContext
--   placement.rs    Placement: the fixed memory ranges, check_no_overlap, copy_to_phys
--   boot_context.rs BootContext: the boot mode that the firmware leaves in /chosen/bootloader
--   rp1_image.rs    Rp1Image: the raw image, the firmware parts, the checksum; Rp1Image.Elf: the ELF
--                   file; Rp1Image.Materialize: the image that is built from an ELF file
--   rp1_note.rs     Rp1Note: the boot note of the firmware, with the owners of the devices
--   rp1_dtb_policy.rs  Policy: which side owns each device
--   rp1_bootstrap.rs   Bootstrap: loading and starting RP1 over its I2C boot protocol
--   bcm2712_i2c.rs, bcm2712_aon.rs  Board: the I2C controller, its pins and the reset pin of RP1
--   dhcp_boot.rs    Dhcp, Dhcp.Message, Dhcp.Exchange: the DHCP client for network boot
--   net_boot.rs     NetBoot: the TFTP transfers; NetBoot.Load: the firmware files; NetBoot.Flow: the way
--                   from the lease to the jump
--   dtb_patch.rs    DtbPatch: the device tree for Linux and the comparison of boards
--   rp1_config.rs   Config: the configuration file
--   main.rs         Start: the owner policy of a firmware file and the start contract; Start.FromSd: the
--                   files of the SD card
--   gzip.rs         Gzip: the kernel file, plain or compressed
--   linux.rs        Linux: the check of the kernel image and the cleaning of the data cache;
--                   Linux.Sdhc: the quieting of the host controller of the SD card
--   boot_files.rs, hash.rs  BootFiles, Hash: reading files; printing digests and lengths
--   amp_service_admission.rs, scmi_linux_admission.rs, amp_proc1_admission.rs  Admission: the gates of
--                   Service, RealTime and Processor
--   rp1_time_anchor.rs, rp1_clock_independence.rs, rp1_pcie_snapshot.rs  TimeAnchor,
--                   ClockIndependence, PcieSnapshot: the diagnostic builds
--   rp1_debug_stub.rs  Debug: the packets, their handlers, the mailbox and the snapshots of the debug
--                   server
-- The owner table of a note or of the configuration becomes a policy, which the device tree of Linux
-- then carries; an accepted image is loaded by the bootstrap over the controller of Board; a lease names
-- the server that the network boot reads from; the kernel goes to a range of Placement before Linux
-- checks it. NetBoot.Flow puts these parts together.
--
-- Functions keep their names. Each file names the source file that it is about. A method that changes
-- its object takes the state and returns it; memory is a function from addresses to bytes; slices are
-- lists of numbers; an early return is the error of a do block. Words are natural numbers, with the
-- wrap-around and the checked operations of the source written out.
--
-- Crates that the repository does not hold are parameters: dtb (DeviceTree, with its edits in the record
-- DeviceTreeEditApi), miniz_oxide (the record Inflate of Gzip), elf (the argument materialize of
-- Rp1Image.Materialize), rp1-abi (Policy.Abi, the record NoteAbi of Rp1Note and the record DebugAbi of
-- Debug), net (the record NetApi of Dhcp.Exchange and the record TftpApi of NetBoot) and file (the record
-- StorageApi of BootFiles). What the hardware does is a record of operations on a device state: Hardware
-- of Bootstrap, SdhcRegisters of Linux.Sdhc, Mmio of Board, Bus of ClockIndependence, Transport of
-- Debug.Server, and BoardApi of NetBoot.Flow, which also holds the setting up of the Ethernet
-- controller, the start of RP1, the release of its devices and the view of the memory that the boot
-- writes. What a proof relies on of them is a hypothesis: device numbers are bit numbers
-- of a 64-bit word (IsMask), the boot ROM stores what a write carries (IsBootRom), the I2C controller
-- delivers the bytes that it was asked for or reports an error (IsDelivering of Board.Delivery), and the
-- calls that the network boot makes after the kernel is in memory leave the reserved ranges alone
-- (IsQuiet of NetBoot.Keeps). The clock and the network device of the DHCP client are the polls that its
-- loops observe.
--
-- Loops are recursion on the list that they read, on the number of rounds left, or on fuel. The fuel is
-- the length of what is left to read (the options of a DHCP message, the notes of a section, the payload
-- of an image), which every round shortens, the poll limits of the source, and the number of cache lines
-- of a range; the proofs go through with that fuel. Two loops have no bound in the source, and their
-- fuel is an argument: the reading loop of the I2C controller and the look for late frames of drain_rx,
-- which the clock ends.
--
-- Not modelled: logs, delays, the UART and the panic handler; assembly (the jump to Linux, barriers,
-- the instruction cache); the inbound monitor, a diagnostic build; the probes and the final records
-- of the debug stub; in net_boot.rs the builds with an initial ramdisk, with a preloaded kernel or with
-- the debug server; and the rest of main_flow.
pub mod Base
pub mod DeviceTree
pub mod Placement
pub mod Memory
pub mod Heap
pub mod BootContext
pub mod Rp1Image
pub mod Linux
pub mod Rp1Note
pub mod Bootstrap
pub mod Policy
pub mod Dhcp
pub mod Gzip
pub mod Config
pub mod Start
pub mod Admission
pub mod TimeAnchor
pub mod ClockIndependence
pub mod PcieSnapshot
pub mod Board
pub mod DtbPatch
pub mod NetBoot
pub mod Debug
pub mod BootFiles
pub mod Hash
