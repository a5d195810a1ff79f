-- ===== src/Dhcp.antt =====
-- rp1_chainboot_poc/src/dhcp_boot.rs: the DHCP client's messages. The writer and the reader of the
-- options, and the choice of the TFTP server. The exchange with the server is the child Exchange.
mod Tests
use mathlib.Core.List.{get_elem?}
pub mod Options
pub mod Message
pub mod Lease
pub mod Exchange
use mathlib.Core.List.{reverse}
use rp1_bootloader_po_c.Base.{
  ℕ, ◌+◌, ◌*◌, ◌-◌, zero, suc, Bool, true, false, not, ◌&&◌, ◌||◌, Option, none, some, List, [],
  ◌∷◌, ◌==◌, ltb, leb, if◌then◌else◌, Result, ok, err, guard, ok_or, ◌>>=◌, ◌>>◌, length, set, take,
  drop, copy_at, replicate,
}
use rp1_bootloader_po_c.Base.Words.{checked_add}

pub data DhcpError : Type 0 where
  encode transmit timeout invalid_packet unexpected_message no_tftp_server : DhcpError

-- `Ipv4Addr`, an array of four bytes.
pub record Ipv4Addr : Type 0 where
  pub b0 : ℕ
  pub b1 : ℕ
  pub b2 : ℕ
  pub b3 : ℕ

abbrev pub zero_ip : Ipv4Addr
zero_ip = record { b0 = 0; b1 = 0; b2 = 0; b3 = 0 }

pub record DhcpLease : Type 0 where
  pub client_ip : Ipv4Addr
  pub subnet_mask : Option Ipv4Addr
  pub router : Option Ipv4Addr
  pub server_id : Option Ipv4Addr
  pub siaddr : Option Ipv4Addr
  pub opt66_tftp_server : Option Ipv4Addr
  pub reply_src_ip : Ipv4Addr

pub data TftpServerSource : Type 0 where
  dhcp_opt66 dhcp_siaddr dhcp_server_id dhcp_reply_source : TftpServerSource

pub record NetworkBootLease : Type 0 where
  pub client_ip : Ipv4Addr
  pub subnet_mask : Option Ipv4Addr
  pub router : Option Ipv4Addr
  pub tftp_server_ip : Ipv4Addr
  pub tftp_server_source : TftpServerSource

pub record DhcpOptions : Type 0 where
  pub message_type : Option ℕ
  pub subnet_mask : Option Ipv4Addr
  pub router : Option Ipv4Addr
  pub server_id : Option Ipv4Addr
  pub opt66_tftp_server : Option Ipv4Addr

-- `DhcpOptions::default()`.
abbrev pub default_options : DhcpOptions
default_options = record {
  message_type = none;
  subnet_mask = none;
  router = none;
  server_id = none;
  opt66_tftp_server = none;
}

-- `bytes.get(..4)`, and the first four bytes as an address.
unfoldable pub parse_ipv4_option : List ℕ → Option Ipv4Addr
parse_ipv4_option (a ∷ b ∷ c ∷ d ∷ rest) = some (record { b0 = a; b1 = b; b2 = c; b3 = d })
parse_ipv4_option bytes = none

abbrev pub same_ip : Ipv4Addr → Ipv4Addr → Bool
same_ip x y = x.b0 == y.b0 && x.b1 == y.b1 && x.b2 == y.b2 && x.b3 == y.b3

unfoldable pub nonzero_ip : Ipv4Addr → Option Ipv4Addr
nonzero_ip ip = if same_ip ip zero_ip then none else some ip

unfoldable pub nonzero_ip_opt : Option Ipv4Addr → Option Ipv4Addr
nonzero_ip_opt none = none
nonzero_ip_opt (some ip) = nonzero_ip ip

-- The bytes that `trim_ascii_nul_space` takes off the end.
abbrev pub is_blank : ℕ → Bool
is_blank b = b == 0 || b == 32 || b == 10 || b == 13 || b == 9

abbrev pub skip_blank : List ℕ → List ℕ
skip_blank [] = []
skip_blank (b ∷ bs) = if is_blank b then skip_blank bs else b ∷ bs

-- The source takes one byte after the other off the end.
unfoldable pub trim_ascii_nul_space : List ℕ → List ℕ
trim_ascii_nul_space bytes = reverse (skip_blank (reverse bytes))

-- The local variables of the loop of `parse_ascii_ipv4`.
pub record AddressScan : Type 0 where
  pub octets : List ℕ
  pub idx : ℕ
  pub value : ℕ
  pub saw_digit : Bool

-- One step of the loop. `value` is a u16, and both of its checked operations are written out.
unfoldable pub scan_byte : AddressScan → ℕ → Option AddressScan
scan_byte s b =
    if leb 48 b && leb b 57
    then (if ltb (s.value * 10) 65536
          && ltb (s.value * 10 + (b - 48)) 65536
          && leb (s.value * 10 + (b - 48)) 255
        then some (record s { value = s.value * 10 + (b - 48); saw_digit = true })
        else none)
    else if b == 46
    then (if not s.saw_digit || leb 3 s.idx
        then none
        else some (record {
          octets = set s.octets s.idx s.value;
          idx = s.idx + 1;
          value = 0;
          saw_digit = false;
        }))
    else none

unfoldable pub scan_bytes : Option AddressScan → List ℕ → Option AddressScan
scan_bytes none bs = none
scan_bytes (some s) [] = some s
scan_bytes (some s) (b ∷ bs) = scan_bytes (scan_byte s b) bs

unfoldable pub finish_scan : AddressScan → Option Ipv4Addr
finish_scan s =
    if not s.saw_digit || not (s.idx == 3)
    then none
    else parse_ipv4_option (set s.octets s.idx s.value)

abbrev pub start_scan : AddressScan
start_scan = record { octets = replicate 4 0; idx = 0; value = 0; saw_digit = false }

unfoldable pub finish_scanned : Option AddressScan → Option Ipv4Addr
finish_scanned none = none
finish_scanned (some s) = finish_scan s

unfoldable pub parse_ascii_ipv4 : List ℕ → Option Ipv4Addr
parse_ascii_ipv4 bytes =
    let trimmed = trim_ascii_nul_space bytes in
    if length trimmed == 0 then none else finish_scanned (scan_bytes (some start_scan) trimmed)

-- What an option with a value does to the options read so far.
unfoldable pub take_option : ℕ → List ℕ → DhcpOptions → DhcpOptions
take_option code value parsed =
    if code == 53
    then (if length value == 1 then record parsed { message_type = get_elem? value 0 } else parsed)
    else if code == 1
    then record parsed { subnet_mask = parse_ipv4_option value }
    else if code == 3
    then record parsed { router = parse_ipv4_option value }
    else if code == 54
    then record parsed { server_id = parse_ipv4_option value }
    else if code == 66
    then record parsed { opt66_tftp_server = parse_ascii_ipv4 value }
    else parsed

-- The value of an option, behind its length byte, and what follows it.
unfoldable pub split_value : List ℕ → Option (List ℕ × List ℕ)
split_value [] = none
split_value (len ∷ rest) =
    if leb len (length rest) then some (take len rest, drop len rest) else none

-- One round of the loop of `parse_dhcp_options`: the options left to read, or the result.
pub data OptionStep : Type 0 where
  go_on : List ℕ → DhcpOptions → OptionStep
  stop : Result DhcpError DhcpOptions → OptionStep

abbrev pub value_step : ℕ → Option (List ℕ × List ℕ) → DhcpOptions → OptionStep
value_step code none parsed = stop (err invalid_packet)
value_step code (some (value, rest)) parsed = go_on rest (take_option code value parsed)

unfoldable pub option_step : ℕ → List ℕ → DhcpOptions → OptionStep
option_step code options parsed =
    if code == 0
    then go_on options parsed
    else if code == 255
    then stop (ok parsed)
    else value_step code (split_value options) parsed

-- The list gets shorter in every round, so its length is fuel enough.
unfoldable pub parse_options : ℕ → List ℕ → DhcpOptions → Result DhcpError DhcpOptions
parse_options fuel [] parsed = ok parsed
parse_options zero (code ∷ options) parsed = ok parsed
parse_options (suc fuel) (code ∷ options) parsed = elim (option_step code options parsed) [
  | stop result ↦ result
  | go_on rest next ↦ parse_options fuel rest next
]

unfoldable pub parse_dhcp_options : List ℕ → Result DhcpError DhcpOptions
parse_dhcp_options options = parse_options (length options) options default_options

-- `OptionsWriter`.
pub record OptionsWriter : Type 0 where
  pub buf : List ℕ
  pub pos : ℕ

unfoldable pub option_bytes : OptionsWriter → ℕ → List ℕ → Result DhcpError OptionsWriter
option_bytes w code value = do
  guard (leb (length value) 255) encode
  reserved ← ok_or (checked_add w.pos 2) encode
  end ← ok_or (checked_add reserved (length value)) encode
  guard (leb end (length w.buf)) encode
  ok (record {
    buf = copy_at (set (set w.buf w.pos code) (w.pos + 1) (length value)) (w.pos + 2) value;
    pos = end;
  })

-- `OptionsWriter::end`.
unfoldable pub end_options : OptionsWriter → Result DhcpError OptionsWriter
end_options w = do
  guard (ltb w.pos (length w.buf)) encode
  ok (record w { buf = set w.buf w.pos 255 })

-- The chain of `if let` of `select_network_boot_lease`: the address that is there, or the next one.
abbrev or_else :
    Option Ipv4Addr
    → TftpServerSource
    → Result DhcpError (Ipv4Addr × TftpServerSource)
    → Result DhcpError (Ipv4Addr × TftpServerSource)
or_else none source next = next
or_else (some ip) source next = ok (ip, source)

unfoldable pub select_tftp_server : DhcpLease → Result DhcpError (Ipv4Addr × TftpServerSource)
select_tftp_server lease = or_else (nonzero_ip_opt lease.opt66_tftp_server) dhcp_opt66 (
    or_else (nonzero_ip_opt lease.siaddr) dhcp_siaddr (
      or_else (nonzero_ip_opt lease.server_id) dhcp_server_id
        (or_else (nonzero_ip lease.reply_src_ip) dhcp_reply_source (err no_tftp_server))))

unfoldable pub select_network_boot_lease : DhcpLease → Result DhcpError NetworkBootLease
select_network_boot_lease lease = do
  server ← select_tftp_server lease
  ok (record {
    client_ip = lease.client_ip;
    subnet_mask = lease.subnet_mask;
    router = lease.router;
    tftp_server_ip = server.0;
    tftp_server_source = server.1;
  })
