-- ===== src/Dhcp/Exchange.antt =====
-- rp1_chainboot_poc/src/dhcp_boot.rs: the exchange with the server. The clock and the network device
-- are what the loops observe of them: one poll for each turn of a waiting loop. The frames of the
-- crate net are a parameter.
pub mod Waits
use rp1_bootloader_po_c.Base.{
  ℕ, zero, suc, ◌+◌, ◌-◌, ◌%◌, ◌&&◌, Bool, Option, none, some, List, [], ◌∷◌, ◌++◌, ◌==◌, ltb, leb,
  if◌then◌else◌, Result, ok, err, guard, ok_or, ◌>>=◌, ◌>>◌, take,
}
use rp1_bootloader_po_c.Base.Words.{usize_mod}
use rp1_bootloader_po_c.Dhcp.{
  DhcpError, Ipv4Addr, NetworkBootLease, encode, transmit, timeout, invalid_packet,
  unexpected_message, no_tftp_server, select_network_boot_lease,
}
use rp1_bootloader_po_c.Dhcp.Message.{
  DhcpReply, DhcpRequestKind, discover, request, encode_dhcp_message, parse_dhcp_reply,
  xid_from_mac,
}

-- The result of the crate net's `parse_udp_ipv4_frame`.
pub record UdpDatagram : Type 0 where
  pub src_ip : Ipv4Addr
  pub src_port : ℕ
  pub dst_port : ℕ
  pub payload : List ℕ

pub record NetApi : Type 0 where
  pub parse_udp_ipv4_frame : List ℕ → Option UdpDatagram
  pub encode_udp_ipv4_frame : List ℕ → List ℕ → Option (List ℕ)

-- One turn of the inner loop: the clock, and the length and the buffer of a received frame.
pub record Poll : Type 0 where
  pub now_us : ℕ
  pub frame : Option (ℕ × List ℕ)

-- One turn of the outer loop: whether the device takes the repeated frame, the clock when the wait
-- begins, and the polls.
pub record Round : Type 0 where
  pub send_accepted : Bool
  pub start_us : ℕ
  pub polls : List Poll

-- How the inner loop ends; `pending` when the polls run out while it still waits.
pub data Attempt : Type 0 where
  replied : Result DhcpError DhcpReply → Attempt
  expired pending : Attempt

-- What a wait has sent, and its result, `none` while it still waits.
pub record Wait : Type 0 where
  pub sent : List (List ℕ)
  pub result : Option (Result DhcpError DhcpReply)

abbrev pub dhcp_timeout_us : ℕ
dhcp_timeout_us = 3_000_000

abbrev pub dhcp_max_retries : ℕ
dhcp_max_retries = 3

abbrev pub max_frame_len : ℕ
max_frame_len = 1536

-- `u64::wrapping_sub`.
abbrev pub wrapping_sub : ℕ → ℕ → ℕ
wrapping_sub a b = (a + usize_mod - b) % usize_mod

-- A reply of the expected type ends the wait, and so does an error that is not about the packet.
abbrev pub judge : ℕ → Result DhcpError DhcpReply → Option (Result DhcpError DhcpReply)
judge expected (ok reply) = if reply.message_type == expected then some (ok reply) else none
judge expected (err invalid_packet) = none
judge expected (err unexpected_message) = none
judge expected (err e) = some (err e)

module _ (net : NetApi) (local_mac : List ℕ) where
  unfoldable pub send_dhcp_packet : List ℕ → Bool → Result DhcpError (List (List ℕ))
  send_dhcp_packet payload accepted = do
    frame ← ok_or (net.encode_udp_ipv4_frame local_mac payload) encode
    guard accepted transmit
    ok (frame ∷ [])

  module _ (xid expected : ℕ) where
    unfoldable pub judge_datagram : UdpDatagram → Option (Result DhcpError DhcpReply)
    judge_datagram datagram =
        if datagram.src_port == 67 && datagram.dst_port == 68
        then judge expected (parse_dhcp_reply datagram.payload datagram.src_ip xid local_mac)
        else none

    unfoldable pub judge_frame : ℕ × List ℕ → Option (Result DhcpError DhcpReply)
    judge_frame (frame_len, rx) =
        if leb frame_len max_frame_len
        then elim (net.parse_udp_ipv4_frame (take frame_len rx)) [
          | none ↦ none
          | some datagram ↦ judge_datagram datagram
        ]
        else none

    unfoldable pub judge_poll : Option (ℕ × List ℕ) → Option (Result DhcpError DhcpReply)
    judge_poll none = none
    judge_poll (some frame) = judge_frame frame

    -- The inner loop.
    unfoldable pub attempt : ℕ → List Poll → Attempt
    attempt start [] = pending
    attempt start (p ∷ ps) =
        let later = attempt start ps in
        if ltb (wrapping_sub p.now_us start) dhcp_timeout_us
        then elim (judge_poll p.frame) [ none ↦ later | some result ↦ replied result ]
        else expired

    unfoldable pub resend : ℕ → List ℕ → Bool → Result DhcpError (List (List ℕ))
    resend zero packet accepted = ok []
    resend (suc retry) packet accepted = send_dhcp_packet packet accepted

    -- The end of a round: the result, or the rounds that follow.
    abbrev pub round_end : List (List ℕ) → Attempt → Wait → Wait
    round_end sent (replied result) later = record { sent = sent; result = some result }
    round_end sent pending later = record { sent = sent; result = none }
    round_end sent expired later = record { sent = sent ++ later.sent; result = later.result }

    abbrev pub resend_end : Result DhcpError (List (List ℕ)) → Attempt → Wait → Wait
    resend_end (err e) tried later = record { sent = []; result = some (err e) }
    resend_end (ok sent) tried later = round_end sent tried later

    -- The outer loop, with the number of rounds that are left.
    unfoldable pub wait_rounds : ℕ → ℕ → List ℕ → List Round → Wait
    wait_rounds zero retry packet rounds = record { sent = []; result = some (err timeout) }
    wait_rounds (suc left) retry packet [] = record { sent = []; result = none }
    wait_rounds (suc left) retry packet (r ∷ rs) =
        resend_end (resend retry packet r.send_accepted) (attempt r.start_us r.polls)
          (wait_rounds left (suc retry) packet rs)

    unfoldable pub wait_for_dhcp_reply : List ℕ → List Round → Wait
    wait_for_dhcp_reply packet rounds = wait_rounds (dhcp_max_retries + 1) 0 packet rounds

  -- What the two halves of the exchange observe.
  pub record Exchange : Type 0 where
    pub discover_accepted : Bool
    pub offer_rounds : List Round
    pub request_accepted : Bool
    pub ack_rounds : List Round

  -- A `?` on a wait that may not be over.
  abbrev pub with_reply :
      Option (Result DhcpError DhcpReply)
      → (DhcpReply → Option (Result DhcpError NetworkBootLease))
      → Option (Result DhcpError NetworkBootLease)
  with_reply none f = none
  with_reply (some (err e)) f = some (err e)
  with_reply (some (ok reply)) f = f reply

  -- Send a message and wait for its answer.
  unfoldable pub ask : DhcpRequestKind → ℕ → Bool → List Round → Option (Result DhcpError DhcpReply)
  ask kind expected accepted rounds =
      elim (encode_dhcp_message local_mac (xid_from_mac local_mac) kind) [
        | err e ↦ some (err e)
        | ok packet ↦ elim (send_dhcp_packet packet accepted) [
          | err e ↦ some (err e)
          | ok sent ↦ (wait_for_dhcp_reply (xid_from_mac local_mac) expected packet rounds).result
        ]
      ]

  unfoldable pub dhcp_acquire : Exchange → Option (Result DhcpError NetworkBootLease)
  dhcp_acquire seen = with_reply (ask discover 2 seen.discover_accepted seen.offer_rounds) (λ offer.
      with_reply
        (ask (request offer.lease.client_ip offer.lease.server_id) 5 seen.request_accepted
          seen.ack_rounds)
        (λ ack. some (select_network_boot_lease ack.lease)))
