-- ===== src/Rp1Note.antt =====
-- rp1_chainboot_poc/src/rp1_note.rs: the boot note of an RP1 firmware ELF file. The note's constants
-- come from the crate rp1-abi, a parameter.
mod Tests
use rp1_bootloader_po_c.Base.{false}
use rp1_bootloader_po_c.Base.{◌%◌}
pub mod Sound
pub mod Run
use rp1_bootloader_po_c.Base.{
  ℕ, zero, suc, ◌+◌, ◌-◌, ◌*◌, bit_and, Bool, not, ◌&&◌, ◌||◌, Option, none, some, List, [], ◌∷◌,
  ltb, leb, ◌==◌, if◌then◌else◌, Result, ok, err, guard, ok_or, ◌>>=◌, ◌>>◌, length, drop, get_or,
  slice, get_range, eq_bytes,
}
use rp1_bootloader_po_c.Base.Words.{from_le_bytes, checked_add, checked_mul, usize_mod, u32_mod}

-- The constants of rp1-abi's module `note`.
pub record NoteAbi : Type 0 where
  pub note_magic : List ℕ
  pub note_name : List ℕ
  pub note_type_boot_v1 : ℕ
  pub note_abi_version : ℕ
  pub boot_info_size : ℕ
  pub version_non_pio : ℕ

pub record Rp1BootInfo : Type 0 where
  pub owner_rp1 : ℕ
  pub owner_linux : ℕ
  pub owner_disabled : ℕ
  pub mailbox_flags : ℕ
  pub firmware_version_kind : ℕ

pub data Rp1NoteState : Type 0 where
  valid : Rp1BootInfo → Rp1NoteState
  missing invalid : Rp1NoteState

abbrev pub mailbox_flags_supported_mask : ℕ
mailbox_flags_supported_mask = 3

-- `bytes.get(off..off.checked_add(n)?)` as a little-endian word: le16_opt, le32_opt and le64_opt.
unfoldable pub le_opt : ℕ → List ℕ → ℕ → Option ℕ
le_opt n bytes off = elim (checked_add off n) [
  | none ↦ none
  | some end ↦ elim (get_range bytes off end) [ none ↦ none | some src ↦ some (from_le_bytes src) ]
]

-- The word is there and is `v`.
abbrev pub is_word : Option ℕ → ℕ → Bool
is_word none v = false
is_word (some w) v = w == v

abbrev pub is_range : Option (List ℕ) → List ℕ → Bool
is_range none v = false
is_range (some w) v = eq_bytes w v

unfoldable pub align4 : ℕ → Option ℕ
align4 value = elim (checked_add value 3) [
  | none ↦ none
  | some up ↦ some (bit_and up (usize_mod - 1 - 3))
]

unfoldable pub section_header : List ℕ → ℕ → ℕ → ℕ → Option (List ℕ)
section_header elf shoff shentsize idx = elim (checked_mul idx shentsize) [
  | none ↦ none
  | some skip ↦ elim (checked_add shoff skip) [
    | none ↦ none
    | some off ↦ elim (checked_add off 40) [ none ↦ none | some end ↦ get_range elf off end ]
  ]
]

-- The source's `?` returns `None`, which its caller reports as a missing note.
unfoldable pub section_data : List ℕ → List ℕ → Result (Unit {0}) (List ℕ)
section_data elf sh = do
  off ← ok_or (le_opt 4 sh 16) tt
  size ← ok_or (le_opt 4 sh 20) tt
  end ← ok_or (checked_add off size) tt
  ok_or (get_range elf off end) tt

-- The bytes up to the first zero.
unfoldable pub until_zero : List ℕ → Option (List ℕ)
until_zero [] = none
until_zero (b ∷ bs) =
    let rest = until_zero bs in
    if b == 0 then some [] else elim rest [ none ↦ none | some name ↦ some (b ∷ name) ]

unfoldable pub section_name : List ℕ → ℕ → Option (List ℕ)
section_name names off = if leb off (length names) then until_zero (drop off names) else none

-- `b".note.rp1"`.
abbrev pub note_section_name : List ℕ
note_section_name = 46 ∷ 110 ∷ 111 ∷ 116 ∷ 101 ∷ 46 ∷ 114 ∷ 112 ∷ 49 ∷ []

-- The loop over the section headers from `idx` on.
unfoldable pub section_loop : List ℕ → List ℕ → ℕ → ℕ → ℕ → ℕ → Result (Unit {0}) (List ℕ)
section_loop elf shstrtab shoff shentsize zero idx = err tt
section_loop elf shstrtab shoff shentsize (suc left) idx = do
  sh ← ok_or (section_header elf shoff shentsize idx) tt
  name_off ← ok_or (le_opt 4 sh 0) tt
  let later = section_loop elf shstrtab shoff shentsize left (suc idx)
  if is_range (section_name shstrtab name_off) note_section_name then section_data elf sh else later

unfoldable pub find_note_section : List ℕ → Result (Unit {0}) (List ℕ)
find_note_section elf = do
  guard (is_range (get_range elf 0 4) (0x7f ∷ 69 ∷ 76 ∷ 70 ∷ [])) tt
  guard (leb 6 (length elf) && get_or elf 4 0 == 1 && get_or elf 5 0 == 1) tt
  shoff ← ok_or (le_opt 4 elf 32) tt
  shentsize ← ok_or (le_opt 2 elf 46) tt
  shnum ← ok_or (le_opt 2 elf 48) tt
  shstrndx ← ok_or (le_opt 2 elf 50) tt
  guard (not (shoff == 0 || ltb shentsize 40 || shnum == 0 || leb shnum shstrndx)) tt
  shstr ← ok_or (section_header elf shoff shentsize shstrndx) tt
  shstrtab ← section_data elf shstr
  section_loop elf shstrtab shoff shentsize shnum 0

-- A note of the section, and where the next one begins.
pub record Note : Type 0 where
  pub name : List ℕ
  pub note_type : ℕ
  pub desc : List ℕ
  pub next : ℕ

-- Where the parts of a note lie.
pub record NoteBounds : Type 0 where
  pub kind : ℕ
  pub name_start : ℕ
  pub name_end : ℕ
  pub desc_start : ℕ
  pub desc_end : ℕ
  pub next : ℕ

unfoldable pub note_bounds : List ℕ → ℕ → Result (Unit {0}) NoteBounds
note_bounds section off = do
  namesz ← ok_or (le_opt 4 section off) tt
  descsz ← ok_or (le_opt 4 section (off + 4)) tt
  note_type ← ok_or (le_opt 4 section (off + 8)) tt
  name_start ← ok_or (checked_add off 12) tt
  name_end ← ok_or (checked_add name_start namesz) tt
  desc_start ← ok_or (align4 name_end) tt
  desc_end ← ok_or (checked_add desc_start descsz) tt
  next ← ok_or (align4 desc_end) tt
  ok (record {
    kind = note_type;
    name_start = name_start;
    name_end = name_end;
    desc_start = desc_start;
    desc_end = desc_end;
    next = next;
  })

unfoldable pub note_at : List ℕ → ℕ → Result (Unit {0}) Note
note_at section off = do
  b ← note_bounds section off
  name ← ok_or (get_range section b.name_start b.name_end) tt
  desc ← ok_or (get_range section b.desc_start b.desc_end) tt
  ok (record { name = name; note_type = b.kind; desc = desc; next = b.next })

-- The value of a block whose early returns are all `Rp1NoteState::Invalid`.
abbrev pub state_of : Result (Unit {0}) Rp1BootInfo → Rp1NoteState
state_of (ok info) = valid info
state_of (err t) = invalid

module _ (abi : NoteAbi) where
  open abi use {
    note_magic, note_name, note_type_boot_v1, note_abi_version, boot_info_size, version_non_pio,
  }

  unfoldable pub read_boot_info : List ℕ → Result (Unit {0}) Rp1BootInfo
  read_boot_info desc = do
    guard (leb boot_info_size (length desc)) tt
    guard (is_range (get_range desc 0 8) note_magic) tt
    guard (is_word (le_opt 2 desc 8) note_abi_version) tt
    guard (is_word (le_opt 2 desc 10) (boot_info_size % 65536)) tt
    guard (is_word (le_opt 4 desc 16) 0) tt
    kind ← ok_or (le_opt 4 desc 76) tt
    guard (kind == version_non_pio) tt
    owner_rp1 ← ok_or (le_opt 8 desc 48) tt
    owner_linux ← ok_or (le_opt 8 desc 56) tt
    owner_disabled ← ok_or (le_opt 8 desc 64) tt
    flags ← ok_or (le_opt 4 desc 72) tt
    guard (bit_and flags (u32_mod - 1 - mailbox_flags_supported_mask) == 0) tt
    ok (record {
      owner_rp1 = owner_rp1;
      owner_linux = owner_linux;
      owner_disabled = owner_disabled;
      mailbox_flags = flags;
      firmware_version_kind = kind;
    })

  unfoldable pub parse_boot_info : List ℕ → Rp1NoteState
  parse_boot_info desc = state_of (read_boot_info desc)

  unfoldable pub is_boot_note : Note → Bool
  is_boot_note note = eq_bytes note.name note_name && note.note_type == note_type_boot_v1

  -- A round of the loop. The offset grows in every round, so the length of the section is fuel enough.
  unfoldable pub note_loop : ℕ → List ℕ → ℕ → Rp1NoteState
  note_loop zero section off = invalid
  note_loop (suc fuel) section off =
      if ltb off (length section)
      then elim (note_at section off) [
        | err t ↦ invalid
        | ok note ↦
            let later = note_loop fuel section note.next in
            if is_boot_note note
            then parse_boot_info note.desc
            else if leb note.next off
            then invalid
            else later
      ]
      else invalid

  unfoldable pub parse_note_section : List ℕ → Rp1NoteState
  parse_note_section section = note_loop (length section) section 0

  unfoldable pub parse_rp1_note : List ℕ → Rp1NoteState
  parse_rp1_note elf = elim (find_note_section elf) [
    | err t ↦ missing
    | ok section ↦ parse_note_section section
  ]
