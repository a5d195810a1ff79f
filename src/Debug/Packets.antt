-- ===== src/Debug/Packets.antt =====
-- The packets of the GDB protocol and the hexadecimal texts of
-- rp1_chainboot_poc/src/rp1_debug_stub.rs. What arrives at the UART is a list of bytes; a packet is read
-- from its front.
use rp1_bootloader_po_c.Base.Bits.{bit_or-add}
use rp1_bootloader_po_c.Base.{==_iff}
use rp1_bootloader_po_c.Base.{length-append}
use rp1_bootloader_po_c.Base.{
  ℕ, zero, suc, ◌+◌, ◌-◌, ◌*◌, ◌/◌, ◌%◌, ◌^◌, ◌≤◌, ◌<◌, ◌≡◌, ◌≢◌, refl, sym, ap, ◌∙◌, true, false,
  not, ◌&&◌, ltb, leb, if◌then◌else◌, List, [], ◌∷◌, ◌++◌, append-nil, append_assoc, Option, none,
  some, length, All, IsBytes, arith, bit_or,
}
use rp1_bootloader_po_c.Base.{◌==◌}

abbrev pub packet_buf_len : ℕ
packet_buf_len = 768

-- `HEX[n]`.
pub hex_digit : ℕ → ℕ
hex_digit n = if ltb n 10 then 48 + n else 87 + n

pub from_hex : ℕ → Option ℕ
from_hex b =
    if leb 48 b && leb b 57
    then some (b - 48)
    else if leb 97 b && leb b 102
    then some (b - 97 + 10)
    else if leb 65 b && leb b 70
    then some (b - 65 + 10)
    else none

-- `push_hex_byte` for every byte.
pub hex_bytes : List ℕ → List ℕ
hex_bytes [] = []
hex_bytes (b ∷ bs) = hex_digit (b / 16) ∷ hex_digit (b % 16) ∷ hex_bytes bs

-- `(hi << 4) | lo` of two digits, the first of which may already be wrong.
pub hex_pair : Option ℕ → Option ℕ → Option ℕ
hex_pair none lo = none
hex_pair (some hi) none = none
hex_pair (some hi) (some lo) = some (bit_or (hi * 2 ^ 4) lo)

pub prepend : Option ℕ → Option (List ℕ) → Option (List ℕ)
prepend none rest = none
prepend (some b) none = none
prepend (some b) (some bs) = some (b ∷ bs)

decode_loop : ℕ → List ℕ → Option (List ℕ)
decode_loop zero input = some []
decode_loop (suc n) (h ∷ l ∷ input) =
    prepend (hex_pair (from_hex h) (from_hex l)) (decode_loop n input)
decode_loop (suc n) _ = none

-- `n` is the length of the output.
pub decode_hex_bytes : List ℕ → ℕ → Option (List ℕ)
decode_hex_bytes input n = if not (length input == n * 2) then none else decode_loop n input

-- The loop of `parse_hex_u32`.
hex_step : ℕ → Option ℕ → Option ℕ
hex_step value none = none
hex_step value (some d) = if ltb (value * 16 + d) (2 ^ 32) then some (value * 16 + d) else none

hex_loop : List ℕ → Option ℕ → Option ℕ
hex_loop input none = none
hex_loop [] (some value) = some value
hex_loop (b ∷ bs) (some value) = hex_loop bs (hex_step value (from_hex b))

pub parse_hex_u32 : List ℕ → Option ℕ
parse_hex_u32 input = hex_loop input (some 0)

-- Around the first occurrence.
pub split_byte : ℕ → List ℕ → Option (List ℕ × List ℕ)
split_byte needle [] = none
split_byte needle (b ∷ bs) =
    let rest = split_byte needle bs in
    if b == needle
    then some ([], bs)
    else elim rest [ none ↦ none | some (before, after) ↦ some (b ∷ before, after) ]

both : Option ℕ → Option ℕ → Option (ℕ × ℕ)
both none b = none
both (some a) none = none
both (some a) (some b) = some (a, b)

pub parse_addr_len : List ℕ → Option (ℕ × ℕ)
parse_addr_len input = elim (split_byte 44 input) [
  | none ↦ none
  | some (addr, len) ↦ both (parse_hex_u32 addr) (parse_hex_u32 len)
]

pub checksum8 : List ℕ → ℕ → ℕ
checksum8 [] sum = sum
checksum8 (b ∷ bs) sum = checksum8 bs ((sum + b) % 256)

-- The bytes that `send_packet` and `send_packet_from_reply` send.
unfoldable pub send_packet : List ℕ → List ℕ
send_packet bytes =
    let checksum = checksum8 bytes 0 in
    36 ∷ (bytes ++ (35 ∷ hex_digit (checksum / 16) ∷ hex_digit (checksum % 16) ∷ []))

-- What reading a packet comes to: the packet and what follows it (and `+` is sent), a packet that is
-- rejected, or waiting for more bytes.
pub data Received : Type 0 where
  accepted : List ℕ → List ℕ → Received
  rejected : List ℕ → Received
  waiting : Received

judge_checksum : List ℕ → ℕ → Option ℕ → List ℕ → Received
judge_checksum packet sum none rest = rejected rest
judge_checksum packet sum (some got) rest =
    if got == sum then accepted packet rest else rejected rest

-- The two digits behind the `#`; after a wrong first digit the second is not read.
read_low : List ℕ → ℕ → Option ℕ → List ℕ → Received
read_low packet sum none bs = rejected bs
read_low packet sum (some hi) [] = waiting
read_low packet sum (some hi) (l ∷ rest) =
    judge_checksum packet sum (hex_pair (some hi) (from_hex l)) rest

read_checksum : List ℕ → ℕ → List ℕ → Received
read_checksum packet sum [] = waiting
read_checksum packet sum (h ∷ bs) = read_low packet sum (from_hex h) bs

read_body : List ℕ → ℕ → List ℕ → Received
read_body packet sum [] = waiting
read_body packet sum (b ∷ bs) =
    let more = read_body (packet ++ (b ∷ [])) ((sum + b) % 256) bs in
    if b == 35
    then read_checksum packet sum bs
    else if leb packet_buf_len (length packet)
    then rejected bs
    else more

pub read_packet : List ℕ → Received
read_packet [] = waiting
read_packet (b ∷ bs) = let more = read_packet bs in if b == 36 then read_body [] 0 bs else more

-- The digits of a byte are read back.
digits_read : (x : ℕ) → x < 16 → from_hex (hex_digit x) ≡ some x
unfolding from_hex hex_digit
digits_read x h = ground arith

pair_read :
    (b : ℕ)
    → b < 256
    → hex_pair (from_hex (hex_digit (b / 16))) (from_hex (hex_digit (b % 16))) ≡ some b
unfolding hex_pair
pair_read b h =
    let joined : bit_or (b / 16 * 16) (b % 16) ≡ b =
      bit_or-add 4 (b / 16) (b % 16) (omega arith) ∙ omega arith in
    rw (digits_read (b / 16) (omega arith), digits_read (b % 16) (omega arith))
      (ap (λ (x : ℕ). some x) joined)

decode_loop-hex_bytes :
    (bs : List ℕ) → IsBytes bs → decode_loop (length bs) (hex_bytes bs) ≡ some bs
unfolding decode_loop hex_bytes prepend
decode_loop-hex_bytes [] h = refl
decode_loop-hex_bytes (b ∷ bs) (small, h) = rw (pair_read b small, decode_loop-hex_bytes bs h) refl

length-hex_bytes : (bs : List ℕ) → length (hex_bytes bs) ≡ length bs * 2
unfolding hex_bytes
length-hex_bytes [] = refl
length-hex_bytes (b ∷ bs) = omega (arith, length-hex_bytes bs)

-- Printing bytes as hexadecimal digits and reading the digits gives the bytes back.
decode_hex_bytes-hex_bytes :
    (bs : List ℕ) → IsBytes bs → decode_hex_bytes (hex_bytes bs) (length bs) ≡ some bs
unfolding decode_hex_bytes
decode_hex_bytes-hex_bytes bs h =
    let whole : (length (hex_bytes bs) == length bs * 2) ≡ true =
      (==_iff _ _).1 (length-hex_bytes bs) in
    rw whole (decode_loop-hex_bytes bs h)

checksum8_lt : (bs : List ℕ) (sum : ℕ) → sum < 256 → checksum8 bs sum < 256
unfolding checksum8
checksum8_lt [] sum h = h
checksum8_lt (b ∷ bs) sum h = checksum8_lt bs ((sum + b) % 256) (omega arith)

unfoldable pub AllPlain : List ℕ → Type 0
AllPlain bs = All (λ b. b ≢ 35) bs

read_body-packet :
    (bs packet trailer : List ℕ) (sum : ℕ)
    → AllPlain bs
    → length packet + length bs ≤ packet_buf_len
    → read_body packet sum (bs ++ (35 ∷ trailer))
      ≡ read_checksum (packet ++ bs) (checksum8 bs sum) trailer
unfolding read_body checksum8 AllPlain
read_body-packet [] packet trailer sum plain fits =
    ap (λ (p : List ℕ). read_checksum p sum trailer) (sym (append-nil packet))
read_body-packet (b ∷ bs) packet trailer sum (not_end, plain) fits =
    let plain_byte : (b == 35) ≡ false = ground arith in
    let room : leb packet_buf_len (length packet) ≡ false = ground arith in
    let longer = length-append packet (b ∷ []) in
    let more =
      read_body-packet bs (packet ++ (b ∷ [])) trailer ((sum + b) % 256) plain
        (omega (arith, longer)) in
    rw (plain_byte, room)
      (more
        ∙ ap (λ (p : List ℕ). read_checksum p (checksum8 bs ((sum + b) % 256)) trailer)
            (append_assoc packet (b ∷ []) bs))

read_checksum-trailer :
    (packet rest : List ℕ) (sum : ℕ)
    → sum < 256
    → read_checksum packet sum (hex_digit (sum / 16) ∷ hex_digit (sum % 16) ∷ rest)
      ≡ accepted packet rest
unfolding read_checksum read_low judge_checksum
read_checksum-trailer packet rest sum h =
    let high = digits_read (sum / 16) (omega arith) in
    let both_read : hex_pair (some (sum / 16)) (from_hex (hex_digit (sum % 16))) ≡ some sum =
      rw high at (pair_read sum h) in
    let same : (sum == sum) ≡ true = (==_iff _ _).1 refl in rw (high, both_read, same) refl

-- A packet of at most 768 bytes without `#` that is sent is read back as it was, with whatever follows
-- it left in the stream.
pub read_packet-send_packet :
    (packet rest : List ℕ)
    → AllPlain packet
    → length packet ≤ packet_buf_len
    → read_packet (send_packet packet ++ rest) ≡ accepted packet rest
unfolding read_packet send_packet
read_packet-send_packet packet rest plain fits =
    let sum = checksum8 packet 0 in
    let trailer = hex_digit (sum / 16) ∷ hex_digit (sum % 16) ∷ rest in
    ap (λ (bs : List ℕ). read_body [] 0 bs)
      (append_assoc packet (35 ∷ hex_digit (sum / 16) ∷ hex_digit (sum % 16) ∷ []) rest)
    ∙ read_body-packet packet [] trailer 0 plain (omega arith)
    ∙ read_checksum-trailer packet rest sum (checksum8_lt packet 0 (omega arith))
