-- ===== src/Placement/Copy.antt =====
-- What a copy to physical memory changes, and that the boot ranges keep it away from the rest.
use rp1_bootloader_po_c.Base.{
  ℕ, ◌+◌, ◌-◌, ◌≤◌, ◌<◌, ◌≡◌, List, [], ◌∷◌, arith, ltb, inl, inr, Bool-cases, length, get_or, All,
  ok,
}
use rp1_bootloader_po_c.Placement.{
  Range, Memory, write_bytes, new, dtb_ptr, kernel_load_base, kernel_max_size, initramfs_load_base,
  initramfs_max_size, dtb_copy_base, dtb_max_size, rp1_img_scratch_base, rp1_img_scratch_max,
  copy_to_phys, check_no_overlap, boot_ranges,
}
use rp1_bootloader_po_c.Placement.Disjoint.{Contains, Apart, IsPlaced, check_no_overlap-IsPlaced}

-- `m'` is `m` with `src` at `dst`.
pub record IsWritten (m m' : Memory) (dst : ℕ) (src : List ℕ) : Type 0 where
  pub inside : (i : ℕ) → i < length src → m' (dst + i) ≡ get_or src i 0
  pub below : (a : ℕ) → a < dst → m' a ≡ m a
  pub above : (a : ℕ) → dst + length src ≤ a → m' a ≡ m a

pub write_bytes-IsWritten :
    (m : Memory) (dst : ℕ) (src : List ℕ) → IsWritten m (write_bytes m dst src) dst src
write_bytes-IsWritten m dst src = record {
  inside = λ i h. let e : dst + i - dst ≡ i = omega arith in rw e (ground arith);
  below = λ a h. ground arith;
  above = λ a h. ground arith;
}

-- A successful copy fits the bound, writes exactly the source bytes from the destination on, and
-- changes no other address.
pub copy_to_phys-IsWritten :
    (dst max_len : ℕ) (src : List ℕ) (m m' : Memory)
    → copy_to_phys dst max_len src m ≡ ok m'
    → (length src ≤ max_len) × IsWritten m m' dst src
unfolding copy_to_phys
copy_to_phys-IsWritten dst max_len src m m' h = elim (Bool-cases (ltb max_len (length src))) [
  | inl long ↦ absurd (ground arith)
  | inr fits ↦
      let e : write_bytes m dst src ≡ m' = ground arith in
      (ground arith, rw (← e) (write_bytes-IsWritten m dst src))
]

-- What the copy of the kernel must not touch.
abbrev pub beside_kernel : Range → Range → ℕ → List Range
beside_kernel program stack dtb_size =
    program
    ∷ stack
    ∷ new "dtb-input" dtb_ptr dtb_size
    ∷ new "initramfs" initramfs_load_base initramfs_max_size
    ∷ new "dtb-copy" dtb_copy_base dtb_max_size
    ∷ new "rp1-scratch" rp1_img_scratch_base rp1_img_scratch_max
    ∷ []

abbrev kernel_range : Range
kernel_range = new "kernel" kernel_load_base kernel_max_size

Apart-unchanged :
    (r : Range) (src : List ℕ) (m m' : Memory)
    → length src ≤ kernel_max_size
    → IsWritten m m' kernel_load_base src
    → Apart r kernel_range
    → (a : ℕ) → Contains r a
    → m' a ≡ m a
Apart-unchanged r src m m' fits w apart a h = elim (Bool-cases (ltb a kernel_load_base)) [
  | inl low ↦ w.below a (ground arith)
  | inr high ↦ w.above a (ground (arith, apart a))
]

-- Once the overlap check has accepted the boot ranges, copying the kernel changes no byte of the
-- loader, its stack, the two device trees, the initramfs range or the RP1 scratch range.
pub kernel_copy_safe :
    (program stack : Range) (dtb_size : ℕ) (src : List ℕ) (m m' : Memory)
    → check_no_overlap (boot_ranges program stack dtb_size) ≡ ok tt
    → copy_to_phys kernel_load_base kernel_max_size src m ≡ ok m'
    → All (λ r. (a : ℕ) → Contains r a → m' a ≡ m a) (beside_kernel program stack dtb_size)
kernel_copy_safe program stack dtb_size src m m' placed copied =
    let (fits, written) = copy_to_phys-IsWritten kernel_load_base kernel_max_size src m m' copied in
    let p : IsPlaced (boot_ranges program stack dtb_size) =
      (check_no_overlap-IsPlaced (boot_ranges program stack dtb_size)).0 placed in
    unfold boot_ranges in
    (
      Apart-unchanged program src m m' fits written (λ a h k. p.1.1.1.0 a h k),
      (
        Apart-unchanged stack src m m' fits written (λ a h k. p.2.1.1.0 a h k),
        (
          Apart-unchanged (new "dtb-input" dtb_ptr dtb_size) src m m' fits written
              (λ a h k. p.2.2.1.0 a h k),
          (
            Apart-unchanged (new "initramfs" initramfs_load_base initramfs_max_size) src m m' fits
                written (λ a h k. omega arith),
            (
              Apart-unchanged (new "dtb-copy" dtb_copy_base dtb_max_size) src m m' fits written
                  (λ a h k. omega arith),
              (
                Apart-unchanged (new "rp1-scratch" rp1_img_scratch_base rp1_img_scratch_max) src m
                    m' fits written (λ a h k. omega arith),
                tt,
              ),
            ),
          ),
        ),
      ),
    )
