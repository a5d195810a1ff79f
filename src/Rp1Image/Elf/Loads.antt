-- ===== src/Rp1Image/Elf/Loads.antt =====
-- What the inspection of an ELF file guarantees of the load segments that it returns.
use rp1_bootloader_po_c.Rp1Image.Elf.Segments.{
  segments, word16, word32, load_loop-segments, le32-word, le16-word,
}
use rp1_bootloader_po_c.Base.{
  ℕ, zero, suc, ◌+◌, ◌-◌, ◌≤◌, ◌<◌, ◌≡◌, ◌⊎◌, refl, ap, true, not, Option, none, some, List, [],
  ◌∷◌, ◌++◌, ltb, leb, ◌==◌, arith, length, All, All-append, length-append, slice, ok, inl, inr,
  Bool-cases, bind-eq-ok, guard-eq-ok, ok_or, address_overflow,
}
use rp1_bootloader_po_c.Base.Words.{checked_add, checked_mul, usize_mod}
use rp1_bootloader_po_c.Rp1Image.{ImageFeatures, rp1_sram_base, le16, le32}
use rp1_bootloader_po_c.Rp1Image.Elf.{
  Rp1ElfLoad, Rp1ElfInfo, max_logged_loads, read_load, check_load, load_step, load_loop,
  read_in_load, read_loaded_bytes, read_loaded_u32, check_ident, inspect_rp1_elf,
  elf_load_file_bytes, push_load, pt_load, elf32_phdr_len,
}

-- A segment whose bytes lie in the file and fit its memory; under the profile feature it is also
-- loaded where it is linked, in the shared SRAM and below the reserved top part, but for one
-- read-only segment at 0x2000f000.
pub record IsSafeLoad (f : ImageFeatures) (len : ℕ) (load : Rp1ElfLoad) : Type 0 where
  pub in_file : load.file_offset + load.filesz ≤ len
  pub fits : load.filesz ≤ load.memsz
  pub linked : f.amp_proc1_profile ≡ true → load.vaddr ≡ load.paddr
  pub in_sram : f.amp_proc1_profile ≡ true → rp1_sram_base ≤ load.paddr
  pub below_top :
      f.amp_proc1_profile ≡ true
      → (load.paddr + load.memsz ≤ 0x2000_e000)
        ⊎ ((load.paddr ≡ 0x2000_f000) × (load.paddr + load.memsz ≤ 0x2000_f600) × (load.flags ≡ 5))

check_load-IsSafeLoad :
    (f : ImageFeatures) (len : ℕ) (load : Rp1ElfLoad)
    → check_load f len load ≡ ok tt
    → IsSafeLoad f len load
unfolding check_load
check_load-IsSafeLoad f len load e = ground arith

abbrev AllSafe : ImageFeatures → List ℕ → List Rp1ElfLoad → Type 0
AllSafe f elf loads = All (IsSafeLoad f (length elf)) loads × (length loads ≤ max_logged_loads f)

push_load-AllSafe :
    (f : ImageFeatures) (elf : List ℕ) (ph : ℕ) (loads loads' : List Rp1ElfLoad)
    → push_load f elf ph loads ≡ ok loads'
    → AllSafe f elf loads
    → AllSafe f elf loads'
unfolding push_load
push_load-AllSafe f elf ph loads loads' e h =
    let (room, e1) = guard-eq-ok (not (leb (max_logged_loads f) (length loads))) _ _ e in
    let (load, _, e2) = bind-eq-ok (read_load elf ph) _ e1 in
    let (_, safe, e3) = bind-eq-ok (check_load f (length elf) load) _ e2 in
    let pushed : loads ++ load ∷ [] ≡ loads' = ground arith in
    rw (← pushed) (
      All-append (IsSafeLoad f (length elf)) loads (load ∷ []) h.0
          (check_load-IsSafeLoad f (length elf) load safe, tt),
      ground (arith, length-append loads (load ∷ [])),
    )

load_step-AllSafe :
    (f : ImageFeatures) (elf : List ℕ) (phoff phentsize index : ℕ) (loads loads' : List Rp1ElfLoad)
    → load_step f elf phoff phentsize index loads ≡ ok loads'
    → AllSafe f elf loads
    → AllSafe f elf loads'
unfolding load_step
load_step-AllSafe f elf phoff phentsize index loads loads' e h =
    let (at, _, e1) = bind-eq-ok (ok_or (checked_mul index phentsize) address_overflow) _ e in
    let (ph, _, e2) = bind-eq-ok (ok_or (checked_add phoff at) address_overflow) _ e1 in
    let (ph_end, _, e3) =
      bind-eq-ok (ok_or (checked_add ph elf32_phdr_len) address_overflow) _ e2 in
    let (_, e4) = guard-eq-ok (not (ltb (length elf) ph_end)) _ _ e3 in
    let (p_type, _, e5) = bind-eq-ok (le32 elf ph) _ e4 in
    elim (Bool-cases (not (p_type == pt_load))) [
      | inl skip ↦ let same : loads ≡ loads' = ground arith in rw (← same) h
      | inr wanted ↦ push_load-AllSafe f elf ph loads loads' (rw wanted at e5) h
    ]

load_loop-AllSafe :
    (f : ImageFeatures) (elf : List ℕ) (phoff phentsize n index : ℕ)
    (loads loads' : List Rp1ElfLoad)
    → load_loop f elf phoff phentsize n index loads ≡ ok loads'
    → AllSafe f elf loads
    → AllSafe f elf loads'
unfolding load_loop
load_loop-AllSafe f elf phoff phentsize zero index loads loads' e h =
    let same : loads ≡ loads' = ground arith in rw (← same) h
load_loop-AllSafe f elf phoff phentsize (suc n) index loads loads' e h =
    let (mid, first, rest) = bind-eq-ok (load_step f elf phoff phentsize index loads) _ e in
    load_loop-AllSafe f elf phoff phentsize n (index + 1) mid loads' rest
      (load_step-AllSafe f elf phoff phentsize index loads mid first h)

-- The inspection of an ELF file returns all the segments of the file's program headers that ask to be
-- loaded, in their order; there is at least one and there are at most as many as the build logs, and
-- every one of them is safe.
pub inspect_rp1_elf-IsSafeLoad :
    (f : ImageFeatures) (elf : List ℕ) (info : Rp1ElfInfo)
    → inspect_rp1_elf f elf ≡ ok info
    → (info.loads ≡ segments elf (word32 elf 28) (word16 elf 42) (word16 elf 44) 0)
      × (0 < length info.loads)
      × (length info.loads ≤ max_logged_loads f)
      × All (IsSafeLoad f (length elf)) info.loads
unfolding inspect_rp1_elf
inspect_rp1_elf-IsSafeLoad f elf info e =
    let (_, _, e1) = bind-eq-ok (check_ident elf) _ e in
    let (entry, _, e2) = bind-eq-ok (le32 elf 24) _ e1 in
    let (phoff, h3, e3) = bind-eq-ok (le32 elf 28) _ e2 in
    let (phentsize, h4, e4) = bind-eq-ok (le16 elf 42) _ e3 in
    let (phnum, h5, e5) = bind-eq-ok (le16 elf 44) _ e4 in
    let (_, e6) = guard-eq-ok (not (ltb phentsize elf32_phdr_len)) _ _ e5 in
    let (loads, looped, e7) = bind-eq-ok (load_loop f elf phoff phentsize phnum 0 []) _ e6 in
    let (some_load, e8) = guard-eq-ok (not (length loads == 0)) _ _ e7 in
    let (sp, _, e9) = bind-eq-ok (read_loaded_u32 elf loads rp1_sram_base) _ e8 in
    let (reset, _, e10) = bind-eq-ok (read_loaded_u32 elf loads (rp1_sram_base + 4)) _ e9 in
    let same : loads ≡ info.loads = ground arith in
    let safe = load_loop-AllSafe f elf phoff phentsize phnum 0 [] loads looped (tt, omega arith) in
    let found = load_loop-segments f elf phoff phentsize phnum 0 [] loads looped in
    rw
      (
        ← same,
        ← le32-word elf 28 phoff h3,
        ← le16-word elf 42 phentsize h4,
        ← le16-word elf 44 phnum h5,
      )
      (found, ground arith, safe.1, safe.0)

-- The bytes of a safe segment can be read from the file, and are as many as the segment says.
pub elf_load_file_bytes-ok :
    (f : ImageFeatures) (elf : List ℕ) (load : Rp1ElfLoad)
    → length elf < usize_mod
    → IsSafeLoad f (length elf) load
    → elf_load_file_bytes elf load
      ≡ ok (slice elf load.file_offset (load.file_offset + load.filesz))
unfolding elf_load_file_bytes
elf_load_file_bytes-ok f elf load small h = ground arith

-- The segment that holds the address range in its file part.
pub record IsFoundIn (elf : List ℕ) (loads : List Rp1ElfLoad) (addr len : ℕ) (bytes : List ℕ)
    : Type 0 where
  pub before : List Rp1ElfLoad
  pub load : Rp1ElfLoad
  pub behind : List Rp1ElfLoad
  pub splits : loads ≡ before ++ load ∷ behind
  pub covers_start : load.paddr ≤ addr
  pub covers_end : addr + len ≤ load.paddr + load.filesz
  pub reads :
      bytes
      ≡ slice elf
          (load.file_offset + (addr - load.paddr))
          (load.file_offset + (addr - load.paddr) + len)

read_in_load-some :
    (elf : List ℕ) (load : Rp1ElfLoad) (addr len : ℕ) (bytes : List ℕ)
    → read_in_load elf load addr len ≡ ok (some bytes)
    → (load.paddr ≤ addr)
      × (addr + len ≤ load.paddr + load.filesz)
      × (bytes
          ≡ slice elf
              (load.file_offset + (addr - load.paddr))
              (load.file_offset + (addr - load.paddr) + len))
unfolding read_in_load
read_in_load-some elf load addr len bytes e = (ground arith, ground arith, ground arith)

read_on :
    (elf : List ℕ) (load : Rp1ElfLoad) (loads : List Rp1ElfLoad) (addr len : ℕ) (bytes : List ℕ)
    (found : Option (List ℕ))
    → read_in_load elf load addr len ≡ ok found
    → elim found [ some b ↦ ok b | none ↦ read_loaded_bytes elf loads addr len ] ≡ ok bytes
    → (read_loaded_bytes elf loads addr len ≡ ok bytes → IsFoundIn elf loads addr len bytes)
    → IsFoundIn elf (load ∷ loads) addr len bytes
read_on elf load loads addr len bytes (some b) here rest ih =
    let same : b ≡ bytes = ground arith in
    let (start, end, reads) = read_in_load-some elf load addr len b here in
    record {
      before = [];
      load = load;
      behind = loads;
      splits = refl;
      covers_start = start;
      covers_end = end;
      reads = rw (← same) reads;
    }
read_on elf load loads addr len bytes none here rest ih =
    let later = ih rest in
    record {
      before = load ∷ later.before;
      load = later.load;
      behind = later.behind;
      splits = ap (◌∷◌ load) later.splits;
      covers_start = later.covers_start;
      covers_end = later.covers_end;
      reads = later.reads;
    }

-- A successful read through the load segments returns the file bytes that one of the segments puts
-- at the address.
pub read_loaded_bytes-IsFoundIn :
    (elf : List ℕ) (loads : List Rp1ElfLoad) (addr len : ℕ) (bytes : List ℕ)
    → read_loaded_bytes elf loads addr len ≡ ok bytes
    → IsFoundIn elf loads addr len bytes
unfolding read_loaded_bytes
read_loaded_bytes-IsFoundIn elf [] addr len bytes e = absurd (ground arith)
read_loaded_bytes-IsFoundIn elf (load ∷ loads) addr len bytes e =
    let (found, here, rest) = bind-eq-ok (read_in_load elf load addr len) _ e in
    read_on elf load loads addr len bytes found here rest
      (read_loaded_bytes-IsFoundIn elf loads addr len bytes)
