-- ===== src/Dhcp/Tests.antt =====
-- The DHCP properties at a small exchange.
use rp1_bootloader_po_c.Base.{arith}
use rp1_bootloader_po_c.Base.{
  ℕ, ◌≡◌, ◌≢◌, ◌⊎◌, inl, inr, refl, true, none, some, List, [], ◌∷◌, ◌++◌, ok, err, replicate,
}
use rp1_bootloader_po_c.Dhcp.{
  Ipv4Addr, DhcpLease, NetworkBootLease, OptionsWriter, TftpServerSource, default_options,
  option_bytes, end_options, option_step, parse_options, parse_dhcp_options, split_value,
  take_option, parse_ipv4_option, nonzero_ip, select_network_boot_lease, no_tftp_server,
}
use rp1_bootloader_po_c.Dhcp.Options.{
  DhcpOption, write_options, take_all, parse_dhcp_options-write_options,
}
use rp1_bootloader_po_c.Dhcp.Lease.{IsServer, offered, select_network_boot_lease-IsServer}
use rp1_bootloader_po_c.Dhcp.Message.{
  DhcpReply, request, encode_dhcp_message, parse_dhcp_reply, well_formed, meant_for, read_ipv4,
}
use rp1_bootloader_po_c.Dhcp.Message.Layout.{
  IsRequest, IsReply, encode_dhcp_message-IsRequest, parse_dhcp_reply-IsReply,
}
use rp1_bootloader_po_c.Dhcp.Exchange.{
  NetApi, Round, wait_for_dhcp_reply, wait_rounds, attempt, judge_poll, judge_frame, judge_datagram,
  resend, send_dhcp_packet,
}
use rp1_bootloader_po_c.Dhcp.Exchange.Waits.{
  IsAnswer, IsResent, wait_for_dhcp_reply-IsAnswer, wait_for_dhcp_reply-ends,
}

abbrev two_options : List DhcpOption
two_options = (53, 1 ∷ []) ∷ (54, 10 ∷ 0 ∷ 0 ∷ 1 ∷ []) ∷ []

abbrev written : OptionsWriter
written = record { buf = 53 ∷ 1 ∷ 1 ∷ 54 ∷ 4 ∷ 10 ∷ 0 ∷ 0 ∷ 1 ∷ replicate 11 7; pos = 9 }

abbrev ended : OptionsWriter
ended = record { buf = 53 ∷ 1 ∷ 1 ∷ 54 ∷ 4 ∷ 10 ∷ 0 ∷ 0 ∷ 1 ∷ 255 ∷ replicate 10 7; pos = 9 }

options_written : write_options (record { buf = replicate 20 7; pos = 0 }) two_options ≡ ok written
unfolding write_options option_bytes
options_written = refl

options_ended : end_options written ≡ ok ended
unfolding end_options
options_ended = refl

parse_dhcp_options-write_options_example :
    parse_dhcp_options ended.buf ≡ ok (take_all default_options two_options)
parse_dhcp_options-write_options_example =
    parse_dhcp_options-write_options (replicate 20 7) two_options written ended
      (
        (λ e. omega arith, λ e. omega arith, omega arith),
        ((λ e. omega arith, λ e. omega arith, omega arith), tt),
      )
      options_written options_ended

abbrev address : ℕ → Ipv4Addr
address n = record { b0 = 10; b1 = 0; b2 = 0; b3 = n }

abbrev mac : List ℕ
mac = 1 ∷ 2 ∷ 3 ∷ 4 ∷ 5 ∷ 6 ∷ []

encode_dhcp_message-IsRequest_example :
    (packet : List ℕ) × (encode_dhcp_message mac 77 (request (address 9) none) ≡ ok packet)
    × IsRequest mac 77 (request (address 9) none) packet
encode_dhcp_message-IsRequest_example =
    encode_dhcp_message-IsRequest 1 2 3 4 5 6 77 (request (address 9) none) (omega arith)

-- An offer of 10.0.0.9 from 10.0.0.1.
abbrev payload : List ℕ
payload =
    (2 ∷ 1 ∷ 6 ∷ 0 ∷ 0 ∷ 0 ∷ 0 ∷ 77 ∷ replicate 8 0)
    ++ ((10 ∷ 0 ∷ 0 ∷ 9 ∷ replicate 8 0)
        ++ (mac ++ (replicate 202 0 ++ (99 ∷ 130 ∷ 83 ∷ 99 ∷ 53 ∷ 1 ∷ 2 ∷ 255 ∷ []))))

abbrev lease : DhcpLease
lease = record {
  client_ip = address 9;
  subnet_mask = none;
  router = none;
  server_id = none;
  siaddr = none;
  opt66_tftp_server = none;
  reply_src_ip = address 1;
}

abbrev reply : DhcpReply
reply = record { message_type = 2; lease = lease }

accepted : parse_dhcp_reply payload (address 1) 77 mac ≡ ok reply
unfolding parse_dhcp_reply well_formed meant_for read_ipv4 parse_dhcp_options parse_options
    option_step split_value take_option parse_ipv4_option nonzero_ip
accepted = refl

parse_dhcp_reply-IsReply_example : IsReply payload 77 mac reply × (lease.reply_src_ip ≡ address 1)
parse_dhcp_reply-IsReply_example =
    parse_dhcp_reply-IsReply payload (address 1) 77 mac reply accepted

select_network_boot_lease-IsServer_example :
    ((chosen : NetworkBootLease) × (select_network_boot_lease lease ≡ ok chosen)
      × IsServer lease chosen)
    ⊎ ((select_network_boot_lease lease ≡ err no_tftp_server)
        × ((source : TftpServerSource) → offered lease source ≡ none))
select_network_boot_lease-IsServer_example = select_network_boot_lease-IsServer lease

-- Every frame is the offer, and every packet travels as it is.
abbrev offering : NetApi
offering = record {
  parse_udp_ipv4_frame = λ frame.
      some (record { src_ip = address 1; src_port = 67; dst_port = 68; payload = payload });
  encode_udp_ipv4_frame = λ from packet. some packet;
}

abbrev quiet : Round
quiet = record {
  send_accepted = true;
  start_us = 100;
  polls = record { now_us = 200; frame = none } ∷ record { now_us = 3_000_100; frame = none } ∷ [];
}

abbrev answered : Round
answered = record {
  send_accepted = true;
  start_us = 3_000_200;
  polls =
      record { now_us = 3_000_300; frame = some (4, replicate 8 0) }
      ∷ record { now_us = 7_000_000; frame = none }
      ∷ [];
}

abbrev rounds : List Round
rounds = quiet ∷ answered ∷ quiet ∷ quiet ∷ []

waited : (wait_for_dhcp_reply offering mac 77 2 (7 ∷ []) rounds).result ≡ some (ok reply)
unfolding wait_for_dhcp_reply wait_rounds attempt judge_poll judge_frame judge_datagram resend
    send_dhcp_packet parse_dhcp_reply well_formed meant_for read_ipv4 parse_dhcp_options
    parse_options option_step split_value take_option parse_ipv4_option nonzero_ip
waited = refl

wait_for_dhcp_reply-IsAnswer_example : IsAnswer offering mac 77 2 4 rounds reply
wait_for_dhcp_reply-IsAnswer_example =
    wait_for_dhcp_reply-IsAnswer offering mac 77 2 (7 ∷ []) rounds reply waited

wait_for_dhcp_reply-ends_example :
    ((wait_for_dhcp_reply offering mac 77 2 (7 ∷ []) rounds).result ≢ none)
    × IsResent offering mac 77 2
        (7 ∷ [])
        3
        (wait_for_dhcp_reply offering mac 77 2 (7 ∷ []) rounds).sent
wait_for_dhcp_reply-ends_example =
    wait_for_dhcp_reply-ends offering mac 77 2 (7 ∷ []) rounds (omega arith) (
      inr (inl (ground arith)),
      (inr (inl (ground arith)), (inr (inl (ground arith)), (inr (inl (ground arith)), tt))),
    )
