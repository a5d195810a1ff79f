-- ===== src/NetBoot/Flow.antt =====
-- The network boot of rp1_chainboot_poc/src/net_boot.rs from the first transfer to the jump, in the
-- builds without an initramfs and without a preloaded kernel. What the board does besides is the record
-- `BoardApi`.
use rp1_bootloader_po_c.Base.{
  ℕ, Bool, true, false, not, if◌then◌else◌, List, Option, none, some, Result, BootError, ok, err,
  ◌>>=◌, rp1_gem, address_overflow,
}
use rp1_bootloader_po_c.Base.{◌==◌}
use rp1_bootloader_po_c.DeviceTree.{DeviceTreeEditApi}
use rp1_bootloader_po_c.Placement.{
  Memory, write_bytes, kernel_load_base, kernel_max_size, dtb_copy_base, dtb_max_size,
}
use rp1_bootloader_po_c.Dhcp.{NetworkBootLease, DhcpError}
use rp1_bootloader_po_c.Gzip.{Inflate, decompress_kernel_if_needed}
use rp1_bootloader_po_c.Linux.{LinuxImage, validate_arm64_image, clean_dcache_poc}
use rp1_bootloader_po_c.Policy.{Rp1DtbPolicy}
use rp1_bootloader_po_c.Rp1Image.{Rp1Image, rp1_fallback_stack}
use rp1_bootloader_po_c.Rp1Image.Materialize.{Materialized, build_from_rp1_elf}
use rp1_bootloader_po_c.Start.{apply_rp1_elf_start_contract}
use rp1_bootloader_po_c.DtbPatch.{patch_dtb_for_linux}
use rp1_bootloader_po_c.NetBoot.{
  TftpApi, World, Step, after, download_tftp_required, tftp_kernel_staging_max, map_dhcp_error,
  ports_new,
}
use rp1_bootloader_po_c.NetBoot.Load.{
  Build, pure, load_rp1_elf_and_policy_from_tftp, load_rp1_policy_from_tftp,
}

pub record BoardApi (S : Type 0) : Type 0 where
  pub memory : S → Memory
  pub set_memory : Memory → S → S
  pub init_tftp_gem : Bool → S → Result BootError (Unit {0}) × S
  pub dhcp_acquire : S → Result DhcpError NetworkBootLease × S
  pub release_after_quiesce : S → Result (Unit {0}) (Unit {0}) × S
  pub release_after_linux_handoff : S → Result (Unit {0}) (Unit {0}) × S
  pub start_rp1_image : Rp1Image → S → Result BootError (Unit {0}) × S
  pub clean_lines : List ℕ → S → S
  pub invalidate_icache_all : S → S

-- `jump_to_linux_el2(entry, dtb)`.
pub record Jump : Type 0 where
  pub entry : ℕ
  pub dtb : ℕ

module _ {S Parser : Type 0} (api : TftpApi S) (b : Build) (board : BoardApi S)
    (edit : DeviceTreeEditApi Parser) (inflate : Inflate)
    (materialize : List ℕ → ℕ → ℕ → Option Materialized) (scratch_len : ℕ) (dtb : Parser) where
  abbrev or_gem : {A : Type 0} → Result (Unit {0}) A → Result BootError A
  or_gem (ok a) = ok a
  or_gem (err t) = err rp1_gem

  -- A call of the board's.
  abbrev on_board :
      {A : Type 0} → (S → Result BootError A × S) → World S → Result BootError A × World S
  on_board f (s, ports) = let (r, t) = f s in (r, (t, ports))

  -- Fetching the firmware, releasing the network device and starting RP1.
  unfoldable pub boot_rp1_from_tftp : NetworkBootLease → Step S Rp1DtbPolicy
  boot_rp1_from_tftp lease w = after (load_rp1_elf_and_policy_from_tftp api b lease w) (λ loaded w1.
      after
        (pure api b lease
          (build_from_rp1_elf b.features materialize loaded.elf scratch_len rp1_fallback_stack) w1)
        (λ image w2.
          after (pure api b lease (apply_rp1_elf_start_contract b.features image loaded.config) w2)
            (λ contracted w3.
              after (on_board (λ s. let (r, t) = board.release_after_quiesce s in (or_gem r, t)) w3)
                (λ ncr w4.
                  after (on_board (board.start_rp1_image contracted) w4)
                    (λ started w5. (ok loaded.policy, w5))))))

  unfoldable pub download_rp1_policy_and_reload_if_needed :
      Bool → NetworkBootLease → Step S (Option Rp1DtbPolicy)
  download_rp1_policy_and_reload_if_needed true lease w = (ok none, w)
  download_rp1_policy_and_reload_if_needed false lease w =
      after (boot_rp1_from_tftp lease w) (λ policy u. (ok (some policy), u))

  -- What the kernel leaves in memory, and where it is to be entered.
  unfoldable pub place_kernel : List ℕ → Memory → Result BootError ((ℕ × LinuxImage) × Memory)
  place_kernel staged m = do
    (info, out) ← decompress_kernel_if_needed inflate staged kernel_load_base kernel_max_size
    (image, placed) ←
        validate_arm64_image info.base info.len kernel_max_size (write_bytes m kernel_load_base out)
    ok ((info.base, image), placed)

  -- The memory that a step leaves, stored where it succeeds.
  unfoldable pub stored :
      {A : Type 0} → World S → Result BootError (A × Memory) → Result BootError A × World S
  stored (s, ports) (ok (a, m)) = (ok a, (board.set_memory m s, ports))
  stored w (err e) = (err e, w)

  unfoldable pub in_memory : {A : Type 0} → (Memory → Result BootError (A × Memory)) → Step S A
  in_memory f w = stored w (f (board.memory w.0))

  unfoldable pub download_kernel_image_from_tftp : NetworkBootLease → Step S (ℕ × LinuxImage)
  download_kernel_image_from_tftp lease w =
      after (download_tftp_required api lease "BCM2712.img" tftp_kernel_staging_max w)
        (λ staged. in_memory (place_kernel staged))

  unfoldable pub handoff_kernel_common : ℕ → ℕ → Option Rp1DtbPolicy → Step S (Unit {0})
  handoff_kernel_common initrd_start initrd_end policy w =
      after
        (in_memory
          (patch_dtb_for_linux edit b.abi dtb dtb_copy_base dtb_max_size initrd_start initrd_end
            none policy)
          w)
        (λ patched w1.
          let cleaned : World S =
            (board.clean_lines (clean_dcache_poc patched.addr patched.len) w1.0, w1.1) in
          if not (patched.addr == dtb_copy_base)
          then (err address_overflow, cleaned)
          else (ok tt, cleaned))

  -- The policy, where the reload of RP1 and with it the policy were put off.
  unfoldable pub late_policy :
      Bool → NetworkBootLease → Option Rp1DtbPolicy → Step S (Option Rp1DtbPolicy)
  late_policy false lease policy w = (ok policy, w)
  late_policy true lease policy w =
      after (load_rp1_policy_from_tftp api b lease w) (λ p u. (ok (some p), u))

  -- From the hand-over of the network device on.
  unfoldable pub enter_linux : ℕ → LinuxImage → Step S Jump
  enter_linux kernel_base image w =
      after (on_board (λ s. let (r, t) = board.release_after_linux_handoff s in (or_gem r, t)) w)
        (λ ncr w1.
          let s1 = board.clean_lines (clean_dcache_poc kernel_base image.image_size) w1.0 in
          let s2 = board.clean_lines (clean_dcache_poc 0 0) s1 in
          (
            ok (record { entry = image.entry; dtb = dtb_copy_base }),
            (board.invalidate_icache_all s2, w1.1),
          ))

  unfoldable pub boot_kernel_from_tftp_with_lease :
      Bool → NetworkBootLease → Option Rp1DtbPolicy → Step S Jump
  boot_kernel_from_tftp_with_lease skip lease rp1_policy w =
      after (download_kernel_image_from_tftp lease w) (λ kernel w1.
        after (late_policy skip lease rp1_policy w1) (λ policy w2.
          after (handoff_kernel_common 0 0 policy w2) (λ done. enter_linux kernel.0 kernel.1)))

  unfoldable pub acquire : Result DhcpError NetworkBootLease → Result BootError NetworkBootLease
  acquire (ok lease) = ok lease
  acquire (err e) = err (map_dhcp_error e)

  -- `boot_from_tftp_with_dhcp`, with the feature `skip-rp1-reload` as `skip`.
  unfoldable pub boot_from_tftp_with_dhcp : Bool → S → Result BootError Jump × World S
  boot_from_tftp_with_dhcp skip s =
      after (on_board (board.init_tftp_gem false) (s, ports_new)) (λ gem w1.
        after (on_board (λ t. let (r, u) = board.dhcp_acquire t in (acquire r, u)) w1) (λ lease w2.
          after (download_rp1_policy_and_reload_if_needed skip lease w2) (λ policy w3.
            after (if skip then (ok tt, w3) else on_board (board.init_tftp_gem true) w3)
              (λ again w4. boot_kernel_from_tftp_with_lease skip lease policy w4))))
