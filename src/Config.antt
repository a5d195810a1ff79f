-- ===== src/Config.antt =====
-- rp1_chainboot_poc/src/rp1_config.rs: the configuration file. A string is the list of its characters;
-- the decoder `from_utf8` of the standard library is a parameter.
pub mod Words
pub mod Owned
mod Tests
use mathlib.Core.List.{reverse}
use rp1_bootloader_po_c.Base.{
  ℕ, zero, suc, ◌+◌, ◌-◌, ◌*◌, Bool, true, false, not, ◌&&◌, ◌||◌, List, [], ◌∷◌, ◌==◌, ltb, leb,
  if◌then◌else◌, Option, none, some, Result, ok, err, guard, ok_or, ◌>>=◌, ◌>>◌, length, drop,
  slice, get_or, eq_bytes, bit_and, bit_or,
}
use rp1_bootloader_po_c.Base.Words.{u32_mod}
use rp1_bootloader_po_c.Policy.Abi.{Rp1Abi}
use Words.*

pub record Rp1Config : Type 0 where
  pub force_boot : Bool
  pub linux_pio : Bool
  pub rp1_start_contract_explicit : Bool
  pub rp1_entry_override : Option ℕ
  pub rp1_stack_override : Option ℕ
  pub owner_table_seen : Bool
  pub owner_rp1 : ℕ
  pub owner_linux : ℕ
  pub owner_disabled : ℕ

abbrev pub default_config : Rp1Config
default_config = record {
  force_boot = false;
  linux_pio = false;
  rp1_start_contract_explicit = false;
  rp1_entry_override = none;
  rp1_stack_override = none;
  owner_table_seen = false;
  owner_rp1 = 0;
  owner_linux = 0;
  owner_disabled = 0;
}

pub data Section : Type 0 where
  root owner : Section

-- `char::is_whitespace`.
abbrev pub is_whitespace : ℕ → Bool
is_whitespace c =
    leb 9 c && leb c 13
    || c == 32
    || c == 0x85
    || c == 0xa0
    || c == 0x1680
    || leb 0x2000 c && leb c 0x200a
    || c == 0x2028
    || c == 0x2029
    || c == 0x202f
    || c == 0x205f
    || c == 0x3000

abbrev pub trim_start : List ℕ → List ℕ
trim_start [] = []
trim_start (c ∷ cs) = if is_whitespace c then trim_start cs else c ∷ cs

unfoldable pub trim : List ℕ → List ℕ
trim line = reverse (trim_start (reverse (trim_start line)))

abbrev pub push_char : ℕ → List (List ℕ) → List (List ℕ)
push_char c [] = (c ∷ []) ∷ []
push_char c (l ∷ ls) = (c ∷ l) ∷ ls

abbrev pub split_lines : List ℕ → List (List ℕ)
split_lines [] = []
split_lines (c ∷ cs) = let rest = split_lines cs in if c == 10 then [] ∷ rest else push_char c rest

-- The part up to a character, and the part behind it: `find` and `split_once`.
abbrev pub before : ℕ → List ℕ → List ℕ
before mark [] = []
before mark (c ∷ cs) = let rest = before mark cs in if c == mark then [] else c ∷ rest

unfoldable pub strip_comment : List ℕ → List ℕ
strip_comment line = before 35 line

unfoldable pub split_once : ℕ → List ℕ → Option (List ℕ × List ℕ)
split_once mark line =
    let key = before mark line in
    if ltb (length key) (length line) then some (key, drop (length key + 1) line) else none

unfoldable pub trim_value : List ℕ → List ℕ
trim_value value =
    if leb 2 (length value) && get_or value 0 0 == 34 && get_or value (length value - 1) 0 == 34
    then slice value 1 (length value - 1)
    else value

-- `char::to_digit`, with `radix` for a character that is no digit.
abbrev pub digit_of : ℕ → ℕ → ℕ
digit_of radix c =
    if leb 48 c && leb c 57
    then c - 48
    else if leb 97 c && leb c 102
    then c - 87
    else if leb 65 c && leb c 70
    then c - 55
    else radix

abbrev pub digits : ℕ → ℕ → List ℕ → Option ℕ
digits radix acc [] = some acc
digits radix acc (c ∷ cs) =
    let d = digit_of radix c in
    let later = digits radix (acc * radix + d) cs in
    if ltb d radix && ltb (acc * radix + d) u32_mod then later else none

-- `u32::from_str_radix`: one plus sign may stand before the digits, and there is a digit.
abbrev pub unsigned : ℕ → List ℕ → Option ℕ
unsigned radix [] = none
unsigned radix (c ∷ []) = digits radix 0 (c ∷ [])
unsigned radix (c ∷ d ∷ cs) =
    if c == 43 then digits radix 0 (d ∷ cs) else digits radix 0 (c ∷ d ∷ cs)

unfoldable pub parse_u32 : List ℕ → Result (Unit {0}) ℕ
parse_u32 value =
    if leb 2 (length value)
      && get_or value 0 0 == 48
      && (get_or value 1 0 == 120 || get_or value 1 0 == 88)
    then ok_or (unsigned 16 (drop 2 value)) tt
    else ok_or (unsigned 10 value) tt

unfoldable pub root_entry : Rp1Config → List ℕ → List ℕ → Result (Unit {0}) Rp1Config
root_entry config key value =
    if eq_bytes key word_force_boot && eq_bytes value word_true
    then ok (record config { force_boot = true })
    else if eq_bytes key word_force_boot && eq_bytes value word_false
    then ok (record config { force_boot = false })
    else if eq_bytes key word_linux_pio && eq_bytes value word_false
    then ok (record config { linux_pio = false })
    else if eq_bytes key word_linux_pio && eq_bytes value word_true
    then err tt
    else if eq_bytes key word_rp1_start_contract && eq_bytes value word_explicit
    then ok (record config { rp1_start_contract_explicit = true })
    else if eq_bytes key word_rp1_start_contract && eq_bytes value word_default
    then ok (record config { rp1_start_contract_explicit = false })
    else if eq_bytes key word_rp1_entry_override
    then parse_u32 value >>= (λ n. ok (record config { rp1_entry_override = some n }))
    else if eq_bytes key word_rp1_stack_override
    then parse_u32 value >>= (λ n. ok (record config { rp1_stack_override = some n }))
    else err tt

module _ (abi : Rp1Abi) where
  open abi use {
    bit, dev_gpio, dev_uart0, dev_uart1, dev_i2c0, dev_i2c1, dev_spi0, dev_pio0, dev_pio1, dev_dma,
    dev_timer,
  }

  unfoldable pub owner_key_bit : List ℕ → Option ℕ
  owner_key_bit key =
      if eq_bytes key word_gpio
      then some dev_gpio
      else if eq_bytes key word_uart0
      then some dev_uart0
      else if eq_bytes key word_uart1
      then some dev_uart1
      else if eq_bytes key word_i2c0
      then some dev_i2c0
      else if eq_bytes key word_i2c1
      then some dev_i2c1
      else if eq_bytes key word_spi0
      then some dev_spi0
      else if eq_bytes key word_pio0
      then some dev_pio0
      else if eq_bytes key word_pio1
      then some dev_pio1
      else if eq_bytes key word_dma
      then some dev_dma
      else if eq_bytes key word_timer
      then some dev_timer
      else none

  unfoldable pub set_owner : Rp1Config → ℕ → List ℕ → Result (Unit {0}) Rp1Config
  set_owner config dev side =
      let mask = bit dev in
      if not (
        bit_and (bit_or (bit_or config.owner_rp1 config.owner_linux) config.owner_disabled) mask
        == 0)
      then err tt
      else if eq_bytes side word_rp1
      then ok (record config { owner_rp1 = bit_or config.owner_rp1 mask })
      else if eq_bytes side word_linux
      then ok (record config { owner_linux = bit_or config.owner_linux mask })
      else if eq_bytes side word_disabled
      then ok (record config { owner_disabled = bit_or config.owner_disabled mask })
      else err tt

  -- The `match` on the section.
  unfoldable pub entry_step : Rp1Config → Section → List ℕ → List ℕ → Result (Unit {0}) Rp1Config
  entry_step config root key value = root_entry config key value
  entry_step config owner key value = do
    dev ← ok_or (owner_key_bit key) tt
    set_owner config dev value

  -- One round of the loop, with the comment and the blanks taken off the line.
  unfoldable pub line_step : Rp1Config → Section → List ℕ → Result (Unit {0}) (Rp1Config × Section)
  line_step config section line =
      if length line == 0
      then ok (config, section)
      else if eq_bytes line word_owner_table
      then ok (record config { owner_table_seen = true }, owner)
      else if get_or line 0 0 == 91
      then err tt
      else (do
        entry ← ok_or (split_once 61 line) tt
        next ← entry_step config section (trim entry.0) (trim_value (trim entry.1))
        ok (next, section))

  -- A carriage return before the line feed goes with the blanks.
  unfoldable pub config_loop : Rp1Config → Section → List (List ℕ) → Result (Unit {0}) Rp1Config
  config_loop config section [] = ok config
  config_loop config section (line ∷ lines) = do
    next ← line_step config section (trim (strip_comment line))
    config_loop next.0 next.1 lines

  unfoldable pub parse_optional_config :
      (List ℕ → Option (List ℕ)) → Option (List ℕ) → Result (Unit {0}) Rp1Config
  parse_optional_config from_utf8 none = ok default_config
  parse_optional_config from_utf8 (some bytes) = do
    text ← ok_or (from_utf8 bytes) tt
    config_loop default_config root (split_lines text)
