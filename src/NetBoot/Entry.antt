-- ===== src/NetBoot/Entry.antt =====
-- What holds when the network boot enters Linux: of the files that were served, of the owner policy,
-- and of the memory at that moment.
use rp1_bootloader_po_c.NetBoot.Served.{IsServed, IsChosen}
use rp1_bootloader_po_c.NetBoot.Keeps.{IsQuiet}
use rp1_bootloader_po_c.NetBoot.Flow.{place_kernel}
use rp1_bootloader_po_c.NetBoot.Flow.{Jump}
use rp1_bootloader_po_c.NetBoot.Flow.{in_memory}
use rp1_bootloader_po_c.NetBoot.Flow.{BoardApi}
use rp1_bootloader_po_c.Base.{ℕ, ◌≡◌, List, Option, none, some, ok}
use rp1_bootloader_po_c.DeviceTree.{DeviceTreeEditApi}
use rp1_bootloader_po_c.Placement.{Memory, dtb_copy_base, dtb_max_size}
use rp1_bootloader_po_c.Dhcp.{NetworkBootLease}
use rp1_bootloader_po_c.Gzip.{Inflate}
use rp1_bootloader_po_c.Linux.{LinuxImage}
use rp1_bootloader_po_c.Policy.{Rp1DtbPolicy}
use rp1_bootloader_po_c.Rp1Image.Materialize.{Materialized}
use rp1_bootloader_po_c.DtbPatch.{PatchedDtb, patch_dtb_for_linux}
use rp1_bootloader_po_c.NetBoot.{TftpApi}
use rp1_bootloader_po_c.NetBoot.Load.{Build}

module _ {S Parser : Type 0} (api : TftpApi S) (b : Build) (board : BoardApi S)
    (edit : DeviceTreeEditApi Parser) (inflate : Inflate)
    (materialize : List ℕ → ℕ → ℕ → Option Materialized) (scratch_len : ℕ) (dtb : Parser)
    (quiet : IsQuiet api board) where
  -- A policy is there, and it was chosen.
  HasChosen : NetworkBootLease → Option Rp1DtbPolicy → Type 0
  HasChosen lease policy = (p : Rp1DtbPolicy) × (policy ≡ some p) × IsChosen api b lease p

  -- What holds when Linux is entered at `jump` in the state `now`: a lease was acquired; the kernel came
  -- from its server, and was decompressed, validated and placed in memory; a policy of the served
  -- firmware was chosen and validated; and memory is that with the kernel, with the device tree that
  -- carries the policy behind it, where the jump says.
  pub record IsSafeEntry (jump : Jump) (now : S) : Type 0 where
    pub lease : NetworkBootLease
    pub leasing : S
    pub leased : (board.dhcp_acquire leasing).0 ≡ ok lease
    pub staged : List ℕ
    pub kernel_served : IsServed api b lease "BCM2712.img" staged
    pub loading : S
    pub kernel : (ℕ × LinuxImage) × Memory
    pub placed :
        place_kernel api b board edit inflate materialize scratch_len dtb staged
          (board.memory loading)
        ≡ ok kernel
    pub policy : Rp1DtbPolicy
    pub chosen : IsChosen api b lease policy
    pub tree : PatchedDtb × Memory
    pub patched :
        patch_dtb_for_linux edit b.abi dtb dtb_copy_base dtb_max_size 0 0 none
          (some policy)
          kernel.1
        ≡ ok tree
    pub in_memory : board.memory now ≡ tree.1
    pub at_copy : tree.0.addr ≡ jump.dtb
    pub at_entry : kernel.0.1.entry ≡ jump.entry
