-- ===== src/Rp1Image/Elf.antt =====
-- The ELF part of rp1_image.rs: the inspection of the program headers, the reads through the load
-- segments, and the image built from a materialized ELF file.
pub mod Segments
pub mod Loads
use rp1_bootloader_po_c.Base.{
  ℕ, zero, suc, ◌+◌, ◌-◌, ◌*◌, ◌≤◌, ◌<◌, Bool, true, false, not, ◌&&◌, ◌||◌, Option, none, some,
  List, [], ◌∷◌, ◌++◌, ltb, leb, ◌==◌, if◌then◌else◌, eq_bytes, length, get_or, take, slice,
  get_range, Result, BootError, ok, err, guard, ok_or, ◌>>=◌, ◌>>◌, rp1_image_invalid,
  rp1_image_too_large, address_overflow,
}
use rp1_bootloader_po_c.Base.Words.{from_le_bytes, checked_add, checked_add32, checked_mul, u32_mod}
use rp1_bootloader_po_c.Rp1Image.{
  ImageFeatures, Rp1Image, rp1_elf, rp1_sram_base, rp1_max_image_len, le16, le32, is_valid_stack,
  set_thumb,
}

abbrev pub elf32_header_len : ℕ
elf32_header_len = 52

abbrev pub elf32_phdr_len : ℕ
elf32_phdr_len = 32

abbrev pub em_arm : ℕ
em_arm = 40

abbrev pub pt_load : ℕ
pt_load = 1

-- `RP1_ELF_MAX_LOGGED_LOADS`.
unfoldable pub max_logged_loads : ImageFeatures → ℕ
max_logged_loads f =
    if f.amp_proc1_profile
    then 13
    else if f.amp_observation
    then 12
    else if f.amp_proc1
    then 9
    else 8

pub record Rp1ElfLoad : Type 0 where
  pub file_offset : ℕ
  pub vaddr : ℕ
  pub paddr : ℕ
  pub filesz : ℕ
  pub memsz : ℕ
  pub flags : ℕ
  pub align : ℕ

-- `loads` holds the used entries of the array of the source, `load_count` of them.
pub record Rp1ElfInfo : Type 0 where
  pub entry : ℕ
  pub vector0_sp : ℕ
  pub vector1_reset : ℕ
  pub phnum : ℕ
  pub loads : List Rp1ElfLoad

unfoldable pub read_load : List ℕ → ℕ → Result BootError Rp1ElfLoad
unfolding le32
read_load elf ph = do
  file_offset ← le32 elf (ph + 4)
  vaddr ← le32 elf (ph + 8)
  paddr ← le32 elf (ph + 12)
  filesz ← le32 elf (ph + 16)
  memsz ← le32 elf (ph + 20)
  flags ← le32 elf (ph + 24)
  align ← le32 elf (ph + 28)
  ok (record {
    file_offset = file_offset;
    vaddr = vaddr;
    paddr = paddr;
    filesz = filesz;
    memsz = memsz;
    flags = flags;
    align = align;
  })

-- The extra placement rule of the feature rp1-amp-proc1-profile.
unfoldable pub check_profile : ImageFeatures → Rp1ElfLoad → Result BootError (Unit {0})
check_profile f load =
    if f.amp_proc1_profile
    then (do
      end ← ok_or (checked_add32 load.paddr load.memsz) address_overflow
      guard
          (not (
            not (load.vaddr == load.paddr)
            || ltb load.paddr rp1_sram_base
            || ltb 0x2000_e000 end
              && not (
                  load.paddr == 0x2000_f000
                  && leb end 0x2000_f600
                  && load.filesz == load.memsz
                  && not (load.filesz == 0)
                  && load.flags == 5)))
          rp1_image_invalid)
    else ok tt

-- What one PT_LOAD header must satisfy.
unfoldable pub check_load : ImageFeatures → ℕ → Rp1ElfLoad → Result BootError (Unit {0})
unfolding check_profile
check_load f len load = do
  file_end ← ok_or (checked_add load.file_offset load.filesz) address_overflow
  guard (not (ltb load.memsz load.filesz || ltb len file_end)) rp1_image_invalid
  check_profile f load

-- `elf_load_file_bytes`.
unfoldable pub elf_load_file_bytes : List ℕ → Rp1ElfLoad → Result BootError (List ℕ)
elf_load_file_bytes elf load = do
  end ← ok_or (checked_add load.file_offset load.filesz) address_overflow
  ok_or (get_range elf load.file_offset end) rp1_image_invalid

-- A header that is to be loaded: its segment behind those found so far.
unfoldable pub push_load :
    ImageFeatures → List ℕ → ℕ → List Rp1ElfLoad → Result BootError (List Rp1ElfLoad)
push_load f elf ph loads = do
  guard (not (leb (max_logged_loads f) (length loads))) rp1_image_invalid
  load ← read_load elf ph
  check_load f (length elf) load
  ok (loads ++ load ∷ [])

-- One round of the loop over the program headers.
unfoldable pub load_step :
    ImageFeatures → List ℕ → ℕ → ℕ → ℕ → List Rp1ElfLoad → Result BootError (List Rp1ElfLoad)
load_step f elf phoff phentsize index loads = do
  at ← ok_or (checked_mul index phentsize) address_overflow
  ph ← ok_or (checked_add phoff at) address_overflow
  ph_end ← ok_or (checked_add ph elf32_phdr_len) address_overflow
  guard (not (ltb (length elf) ph_end)) rp1_image_invalid
  p_type ← le32 elf ph
  if not (p_type == pt_load) then ok loads else push_load f elf ph loads

-- `for index in 0..phnum`: `n` rounds left, from `index` on.
unfoldable pub load_loop :
    ImageFeatures → List ℕ → ℕ → ℕ → ℕ → ℕ → List Rp1ElfLoad → Result BootError (List Rp1ElfLoad)
load_loop f elf phoff phentsize zero index loads = ok loads
load_loop f elf phoff phentsize (suc n) index loads = do
  loads' ← load_step f elf phoff phentsize index loads
  load_loop f elf phoff phentsize n (index + 1) loads'

-- The segment that is asked for the bytes, or `none` to go on to the next one.
unfoldable pub read_in_load : List ℕ → Rp1ElfLoad → ℕ → ℕ → Result BootError (Option (List ℕ))
read_in_load elf load addr len = do
  end ← ok_or (checked_add32 addr len) address_overflow
  load_file_end ← ok_or (checked_add32 load.paddr load.filesz) address_overflow
  if leb load.paddr addr && leb end load_file_end
      then (do
        file_off ← ok_or (checked_add32 load.file_offset (addr - load.paddr)) address_overflow
        file_end ← ok_or (checked_add file_off len) address_overflow
        bytes ← ok_or (get_range elf file_off file_end) rp1_image_invalid
        ok (some bytes))
      else ok none

unfoldable pub read_loaded_bytes : List ℕ → List Rp1ElfLoad → ℕ → ℕ → Result BootError (List ℕ)
read_loaded_bytes elf [] addr len = do
  end ← ok_or (checked_add32 addr len) address_overflow
  err rp1_image_invalid
read_loaded_bytes elf (load ∷ loads) addr len = do
  found ← read_in_load elf load addr len
  elim found [ some bytes ↦ ok bytes | none ↦ read_loaded_bytes elf loads addr len ]

unfoldable pub read_loaded_u32 : List ℕ → List Rp1ElfLoad → ℕ → Result BootError ℕ
read_loaded_u32 elf loads addr = do
  bytes ← read_loaded_bytes elf loads addr 4
  ok (from_le_bytes bytes)

abbrev elf_magic : List ℕ
elf_magic = 0x7f ∷ b'E' ∷ b'L' ∷ b'F' ∷ []

unfoldable pub check_ident : List ℕ → Result BootError (Unit {0})
check_ident elf = do
  guard
      (not (
        ltb (length elf) elf32_header_len
        || not (eq_bytes (take 4 elf) elf_magic)
        || not (get_or elf 4 0 == 1)
        || not (get_or elf 5 0 == 1)))
      rp1_image_invalid
  machine ← le16 elf 18
  guard (machine == em_arm) rp1_image_invalid

unfoldable pub inspect_rp1_elf : ImageFeatures → List ℕ → Result BootError Rp1ElfInfo
inspect_rp1_elf f elf = do
  check_ident elf
  entry ← le32 elf 24
  phoff ← le32 elf 28
  phentsize ← le16 elf 42
  phnum ← le16 elf 44
  guard (not (ltb phentsize elf32_phdr_len)) rp1_image_invalid
  loads ← load_loop f elf phoff phentsize phnum 0 []
  guard (not (length loads == 0)) rp1_image_invalid
  vector0_sp ← read_loaded_u32 elf loads rp1_sram_base
  vector1_reset ← read_loaded_u32 elf loads (rp1_sram_base + 4)
  ok (record {
    entry = entry;
    vector0_sp = vector0_sp;
    vector1_reset = vector1_reset;
    phnum = phnum;
    loads = loads;
  })
