-- ===== src/Dhcp/Message.antt =====
-- rp1_chainboot_poc/src/dhcp_boot.rs: a whole DHCP message, written and read.
pub mod Layout
use rp1_bootloader_po_c.Base.{
  ℕ, ◌+◌, ◌&&◌, Bool, Option, none, some, List, [], ◌∷◌, ◌++◌, ◌==◌, leb, if◌then◌else◌, Result, ok,
  guard, ok_or, ◌>>=◌, ◌>>◌, length, set, take, drop, slice, get_or, get_range, copy_at, replicate,
  eq_bytes, bit_xor,
}
use rp1_bootloader_po_c.Base.Words.{from_be_bytes, to_be_bytes}
use rp1_bootloader_po_c.Dhcp.{
  DhcpError, DhcpLease, DhcpOptions, Ipv4Addr, OptionsWriter, encode, invalid_packet,
  unexpected_message, option_bytes, end_options, parse_dhcp_options, parse_ipv4_option, nonzero_ip,
}

pub data DhcpRequestKind : Type 0 where
  discover : DhcpRequestKind
  request : Ipv4Addr → Option Ipv4Addr → DhcpRequestKind

abbrev pub dhcp_packet_max : ℕ
dhcp_packet_max = 576

abbrev pub dhcp_magic_cookie : List ℕ
dhcp_magic_cookie = 99 ∷ 130 ∷ 83 ∷ 99 ∷ []

abbrev pub ip_bytes : Ipv4Addr → List ℕ
ip_bytes ip = ip.b0 ∷ ip.b1 ∷ ip.b2 ∷ ip.b3 ∷ []

abbrev pub parameter_request_list : List ℕ
parameter_request_list = 1 ∷ 3 ∷ 28 ∷ 51 ∷ 54 ∷ 58 ∷ 59 ∷ 60 ∷ 66 ∷ 67 ∷ 43 ∷ []

-- `b"PXEClient:Arch:00000:UNDI:002001"`.
abbrev pub vendor_class : List ℕ
vendor_class =
    80 ∷ 88 ∷ 69 ∷ 67 ∷ 108 ∷ 105 ∷ 101 ∷ 110 ∷ 116 ∷ 58 ∷ 65 ∷ 114 ∷ 99 ∷ 104 ∷ 58 ∷ 48 ∷ 48 ∷ 48
    ∷ 48 ∷ 48 ∷ 58 ∷ 85 ∷ 78 ∷ 68 ∷ 73 ∷ 58 ∷ 48 ∷ 48 ∷ 50 ∷ 48 ∷ 48 ∷ 49 ∷ []

unfoldable pub client_guid_from_mac : List ℕ → List ℕ
client_guid_from_mac mac = copy_at (replicate 17 0) 11 mac

unfoldable pub xid_from_mac : List ℕ → ℕ
xid_from_mac mac = bit_xor (from_be_bytes (slice mac 2 6)) 0x5250_3101

-- The fixed part of the message, up to the magic cookie.
unfoldable pub fixed_fields : List ℕ → ℕ → List ℕ
fixed_fields mac xid =
    let boot = set (set (set (replicate dhcp_packet_max 0) 0 1) 1 1) 2 6 in
    let flags = copy_at (copy_at boot 4 (to_be_bytes 4 xid)) 10 (to_be_bytes 2 0x8000) in
    copy_at (copy_at flags 28 mac) 236 dhcp_magic_cookie

unfoldable pub server_option : OptionsWriter → Option Ipv4Addr → Result DhcpError OptionsWriter
server_option w none = ok w
server_option w (some ip) = option_bytes w 54 (ip_bytes ip)

unfoldable pub kind_options : OptionsWriter → DhcpRequestKind → Result DhcpError OptionsWriter
kind_options w discover = option_bytes w 53 (1 ∷ [])
kind_options w (request requested_ip server_id) = do
  typed ← option_bytes w 53 (3 ∷ [])
  asked ← option_bytes typed 50 (ip_bytes requested_ip)
  server_option asked server_id

unfoldable pub common_options : OptionsWriter → List ℕ → Result DhcpError OptionsWriter
common_options w mac = do
  w1 ← option_bytes w 55 parameter_request_list
  w2 ← option_bytes w1 57 (to_be_bytes 2 1500)
  w3 ← option_bytes w2 60 vendor_class
  w4 ← option_bytes w3 93 (to_be_bytes 2 0)
  w5 ← option_bytes w4 94 (1 ∷ 2 ∷ 1 ∷ [])
  option_bytes w5 97 (client_guid_from_mac mac)

-- The writer borrows the packet from its byte 240 on.
unfoldable pub encode_dhcp_message : List ℕ → ℕ → DhcpRequestKind → Result DhcpError (List ℕ)
encode_dhcp_message mac xid kind = do
  let packet = fixed_fields mac xid
  w1 ← kind_options (record { buf = drop 240 packet; pos = 0 }) kind
  w2 ← common_options w1 mac
  w3 ← end_options w2
  ok (take 240 packet ++ w3.buf)

pub record DhcpReply : Type 0 where
  pub message_type : ℕ
  pub lease : DhcpLease

unfoldable pub read_ipv4 : List ℕ → ℕ → Option Ipv4Addr
read_ipv4 bytes offset = elim (get_range bytes offset (offset + 4)) [
  | none ↦ none
  | some four ↦ parse_ipv4_option four
]

unfoldable pub well_formed : List ℕ → Bool
well_formed payload =
    leb 240 (length payload)
    && get_or payload 0 0 == 2
    && get_or payload 1 0 == 1
    && get_or payload 2 0 == 6
    && eq_bytes (slice payload 236 240) dhcp_magic_cookie

unfoldable pub meant_for : List ℕ → ℕ → List ℕ → Bool
meant_for payload xid mac =
    from_be_bytes (slice payload 4 8) == xid && eq_bytes (slice payload 28 34) mac

unfoldable pub parse_dhcp_reply : List ℕ → Ipv4Addr → ℕ → List ℕ → Result DhcpError DhcpReply
parse_dhcp_reply payload reply_src_ip expected_xid expected_mac = do
  guard (well_formed payload) invalid_packet
  guard (meant_for payload expected_xid expected_mac) unexpected_message
  options ← parse_dhcp_options (drop 240 payload)
  message_type ← ok_or options.message_type invalid_packet
  client_ip ← ok_or (read_ipv4 payload 16) invalid_packet
  siaddr ← ok_or (read_ipv4 payload 20) invalid_packet
  ok (record {
    message_type = message_type;
    lease = record {
      client_ip = client_ip;
      subnet_mask = options.subnet_mask;
      router = options.router;
      server_id = options.server_id;
      siaddr = nonzero_ip siaddr;
      opt66_tftp_server = options.opt66_tftp_server;
      reply_src_ip = reply_src_ip;
    };
  })
