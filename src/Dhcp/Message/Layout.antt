-- ===== src/Dhcp/Message/Layout.antt =====
-- What a DHCP message that the client sends says, and what a reply that it accepts says.
use rp1_bootloader_po_c.Base.{zero, suc}
use rp1_bootloader_po_c.Base.{take}
use rp1_bootloader_po_c.Dhcp.Message.{vendor_class}
use rp1_bootloader_po_c.Dhcp.Message.{ip_bytes}
use rp1_bootloader_po_c.Base.{suc}
use rp1_bootloader_po_c.Dhcp.Message.{parameter_request_list}
use rp1_bootloader_po_c.Base.Words.{from_be_bytes-to_be_bytes}
use rp1_bootloader_po_c.Base.{◌^◌}
use rp1_bootloader_po_c.Base.{◌<◌, if◌then◌else◌}
use rp1_bootloader_po_c.Dhcp.{parse_ipv4_option}
use rp1_bootloader_po_c.Dhcp.{take_option}
use rp1_bootloader_po_c.Base.{err}
use rp1_bootloader_po_c.Dhcp.{split_value}
use rp1_bootloader_po_c.Dhcp.{DhcpError}
use rp1_bootloader_po_c.Dhcp.{option_step}
use rp1_bootloader_po_c.Dhcp.Message.{dhcp_packet_max}
use rp1_bootloader_po_c.Base.{Result}
use rp1_bootloader_po_c.Dhcp.{parse_options}
use rp1_bootloader_po_c.Dhcp.Message.{client_guid_from_mac}
use rp1_bootloader_po_c.Dhcp.Message.{fixed_fields}
use rp1_bootloader_po_c.Dhcp.{end_options}
use rp1_bootloader_po_c.Dhcp.{option_bytes}
use rp1_bootloader_po_c.Dhcp.Message.{common_options}
use rp1_bootloader_po_c.Dhcp.Message.{server_option}
use rp1_bootloader_po_c.Dhcp.Message.{kind_options}
use rp1_bootloader_po_c.Base.{leb_sound, leb, ◌==◌, eq_bytes, ==_iff, ◌&&◌, ◌∙◌, ◌∙◌}
use rp1_bootloader_po_c.Base.{
  ℕ, ◌≡◌, ◌≤◌, refl, Bool, true, Option, none, some, List, [], ◌∷◌, ok, arith, length, drop, slice,
  get_or, eq_bytes_iff, ok_or, guard-eq-ok, bind-eq-ok, ok_or-eq-ok,
}
use rp1_bootloader_po_c.Base.Words.{from_be_bytes}
use rp1_bootloader_po_c.Dhcp.{
  Ipv4Addr, DhcpOptions, default_options, parse_dhcp_options, nonzero_ip, invalid_packet,
}
use rp1_bootloader_po_c.Dhcp.Message.{
  DhcpReply, DhcpRequestKind, discover, request, dhcp_magic_cookie, encode_dhcp_message,
  parse_dhcp_reply, read_ipv4, well_formed, meant_for,
}

-- The type of the message and the server that a request names.
abbrev pub kind_type : DhcpRequestKind → ℕ
kind_type discover = 1
kind_type (request ip server) = 3

abbrev pub kind_server : DhcpRequestKind → Option Ipv4Addr
kind_server discover = none
kind_server (request ip server) = server

abbrev pub kind_address : DhcpRequestKind → Option (List ℕ)
kind_address discover = none
kind_address (request ip server) = some (ip_bytes ip)

-- The value of the first option with a code, in options that are not padded; at most `n` are read.
pub option_value : ℕ → ℕ → List ℕ → Option (List ℕ)
option_value zero code options = none
option_value (suc n) code (found ∷ len ∷ rest) =
    let later = option_value n code (drop len rest) in
    if found == 255 then none else if found == code then some (take len rest) else later
option_value (suc n) code _ = none

-- A message that asks for a lease: a BOOTP request of the fixed size for this transaction and this
-- client that wants a broadcast answer, with the type, the server and the address that the kind names
-- among its options, and with the parameter list and the identifiers of the client.
pub record IsRequest (mac : List ℕ) (xid : ℕ) (kind : DhcpRequestKind) (packet : List ℕ)
    : Type 0 where
  pub whole : length packet ≡ dhcp_packet_max
  pub is_boot_request : get_or packet 0 0 ≡ 1
  pub cookie : slice packet 236 240 ≡ dhcp_magic_cookie
  pub same_xid : from_be_bytes (slice packet 4 8) ≡ xid
  pub same_mac : slice packet 28 34 ≡ mac
  pub ethernet : slice packet 1 3 ≡ (1 ∷ 6 ∷ [])
  pub broadcast : slice packet 10 12 ≡ (0x80 ∷ 0 ∷ [])
  pub asks_for : option_value 12 50 (drop 240 packet) ≡ kind_address kind
  pub parameters : option_value 12 55 (drop 240 packet) ≡ some parameter_request_list
  pub boot_client :
      (option_value 12 57 (drop 240 packet) ≡ some (5 ∷ 220 ∷ []))
      × (option_value 12 93 (drop 240 packet) ≡ some (0 ∷ 0 ∷ []))
      × (option_value 12 94 (drop 240 packet) ≡ some (1 ∷ 2 ∷ 1 ∷ []))
  pub vendor : option_value 12 60 (drop 240 packet) ≡ some vendor_class
  pub client_id : option_value 12 97 (drop 240 packet) ≡ some (client_guid_from_mac mac)
  pub options_are :
      (options : DhcpOptions) × (parse_dhcp_options (drop 240 packet) ≡ ok options)
      × (options.message_type ≡ some (kind_type kind))
      × (options.server_id ≡ kind_server kind)

abbrev encoded : Result DhcpError (List ℕ) → List ℕ
encoded (ok packet) = packet
encoded (err e) = []

-- The client's messages always fit the packet. They are BOOTP requests for the transaction and the
-- client, with the message type, the requested address and the server of the kind, the parameter list,
-- the limits of the boot client, its vendor class and its identifier among their options.
pub encode_dhcp_message-IsRequest :
    (a b c d e f xid : ℕ) (kind : DhcpRequestKind)
    → xid < 2 ^ 32
    → (packet : List ℕ) × (encode_dhcp_message (a ∷ b ∷ c ∷ d ∷ e ∷ f ∷ []) xid kind ≡ ok packet)
      × IsRequest (a ∷ b ∷ c ∷ d ∷ e ∷ f ∷ []) xid kind packet
unfolding encode_dhcp_message kind_options server_option common_options option_bytes end_options
    fixed_fields client_guid_from_mac parse_dhcp_options parse_options option_step split_value
    take_option parse_ipv4_option option_value
encode_dhcp_message-IsRequest a b c d e f xid discover small = (
  encoded (encode_dhcp_message (a ∷ b ∷ c ∷ d ∷ e ∷ f ∷ []) xid discover),
  refl,
  record {
    whole = refl;
    is_boot_request = refl;
    cookie = refl;
    same_xid = from_be_bytes-to_be_bytes 4 xid small;
    same_mac = refl;
    ethernet = refl;
    broadcast = refl;
    asks_for = refl;
    parameters = refl;
    boot_client = (refl, refl, refl);
    vendor = refl;
    client_id = refl;
    options_are = (record default_options { message_type = some 1 }, refl, refl, refl);
  },
)
encode_dhcp_message-IsRequest a b c d e f xid (request ip none) small = (
  encoded (encode_dhcp_message (a ∷ b ∷ c ∷ d ∷ e ∷ f ∷ []) xid (request ip none)),
  refl,
  record {
    whole = refl;
    is_boot_request = refl;
    cookie = refl;
    same_xid = from_be_bytes-to_be_bytes 4 xid small;
    same_mac = refl;
    ethernet = refl;
    broadcast = refl;
    asks_for = refl;
    parameters = refl;
    boot_client = (refl, refl, refl);
    vendor = refl;
    client_id = refl;
    options_are = (record default_options { message_type = some 3 }, refl, refl, refl);
  },
)
encode_dhcp_message-IsRequest a b c d e f xid (request ip (some server)) small = (
  encoded (encode_dhcp_message (a ∷ b ∷ c ∷ d ∷ e ∷ f ∷ []) xid (request ip (some server))),
  refl,
  record {
    whole = refl;
    is_boot_request = refl;
    cookie = refl;
    same_xid = from_be_bytes-to_be_bytes 4 xid small;
    same_mac = refl;
    ethernet = refl;
    broadcast = refl;
    asks_for = refl;
    parameters = refl;
    boot_client = (refl, refl, refl);
    vendor = refl;
    client_id = refl;
    options_are = (
      record default_options { message_type = some 3; server_id = some server },
      refl,
      refl,
      refl,
    );
  },
)

-- What an accepted reply is: a BOOTP reply over Ethernet for this transaction and this client, whose
-- options are well formed and name a message type.
pub record IsReply (payload : List ℕ) (xid : ℕ) (mac : List ℕ) (reply : DhcpReply) : Type 0 where
  pub long_enough : 240 ≤ length payload
  pub is_boot_reply : get_or payload 0 0 ≡ 2
  pub is_ethernet : (get_or payload 1 0 ≡ 1) × (get_or payload 2 0 ≡ 6)
  pub cookie : slice payload 236 240 ≡ dhcp_magic_cookie
  pub same_xid : from_be_bytes (slice payload 4 8) ≡ xid
  pub same_mac : slice payload 28 34 ≡ mac
  pub client_is : read_ipv4 payload 16 ≡ some reply.lease.client_ip
  pub siaddr_is :
      (ip : Ipv4Addr) × (read_ipv4 payload 20 ≡ some ip) × (reply.lease.siaddr ≡ nonzero_ip ip)
  pub options_are :
      (options : DhcpOptions) × (parse_dhcp_options (drop 240 payload) ≡ ok options)
      × (options.message_type ≡ some reply.message_type)
      × (reply.lease.subnet_mask ≡ options.subnet_mask)
      × (reply.lease.router ≡ options.router)
      × (reply.lease.server_id ≡ options.server_id)
      × (reply.lease.opt66_tftp_server ≡ options.opt66_tftp_server)

and_five :
    (a b c d e : Bool)
    → (a && b && c && d && e) ≡ true
    → (a ≡ true) × (b ≡ true) × (c ≡ true) × (d ≡ true) × (e ≡ true)
and_five a b c d e h = (ground arith, ground arith, ground arith, ground arith, ground arith)

well_formed_lem :
    (payload : List ℕ)
    → well_formed payload ≡ true
    → (240 ≤ length payload)
      × (get_or payload 0 0 ≡ 2)
      × (get_or payload 1 0 ≡ 1)
      × (get_or payload 2 0 ≡ 6)
      × (slice payload 236 240 ≡ dhcp_magic_cookie)
unfolding well_formed
well_formed_lem payload h =
    let (a, b, c, d, e) =
      and_five (leb 240 (length payload)) (get_or payload 0 0 == 2) (get_or payload 1 0 == 1)
        (get_or payload 2 0 == 6) (eq_bytes (slice payload 236 240) dhcp_magic_cookie) h in
    (
      leb_sound 240 (length payload) a,
      (==_iff (get_or payload 0 0) 2).0 b,
      (==_iff (get_or payload 1 0) 1).0 c,
      (==_iff (get_or payload 2 0) 6).0 d,
      (eq_bytes_iff (slice payload 236 240) dhcp_magic_cookie).0 e,
    )

meant_for_lem :
    (payload : List ℕ) (xid : ℕ) (mac : List ℕ)
    → meant_for payload xid mac ≡ true
    → (from_be_bytes (slice payload 4 8) ≡ xid) × (slice payload 28 34 ≡ mac)
unfolding meant_for
meant_for_lem payload xid mac h =
    (ground arith, (eq_bytes_iff (slice payload 28 34) mac).0 (ground arith))

-- An accepted reply is a well-formed reply to this client's transaction, and its lease holds what the
-- message and its options say.
pub parse_dhcp_reply-IsReply :
    (payload : List ℕ) (src : Ipv4Addr) (xid : ℕ) (mac : List ℕ) (reply : DhcpReply)
    → parse_dhcp_reply payload src xid mac ≡ ok reply
    → IsReply payload xid mac reply × (reply.lease.reply_src_ip ≡ src)
unfolding parse_dhcp_reply
parse_dhcp_reply-IsReply payload src xid mac reply e =
    let (t1, e1) = guard-eq-ok (well_formed payload) _ _ e in
    let (t2, e2) = guard-eq-ok (meant_for payload xid mac) _ _ e1 in
    let (options, h3, e3) = bind-eq-ok (parse_dhcp_options (drop 240 payload)) _ e2 in
    let (kind, h4, e4) = bind-eq-ok (ok_or options.message_type invalid_packet) _ e3 in
    let (client, h5, e5) = bind-eq-ok (ok_or (read_ipv4 payload 16) invalid_packet) _ e4 in
    let (siaddr, h6, e6) = bind-eq-ok (ok_or (read_ipv4 payload 20) invalid_packet) _ e5 in
    let (a, b, c, d, f) = well_formed_lem payload t1 in
    let (g, h) = meant_for_lem payload xid mac t2 in
    (
      record {
        long_enough = a;
        is_boot_reply = b;
        is_ethernet = (c, d);
        cookie = f;
        same_xid = g;
        same_mac = h;
        client_is = ok_or-eq-ok _ _ h5 ∙ cc;
        siaddr_is = (siaddr, ok_or-eq-ok _ _ h6, cc);
        options_are = (options, h3, ok_or-eq-ok _ _ h4 ∙ cc, cc, cc, cc, cc);
      },
      cc,
    )
