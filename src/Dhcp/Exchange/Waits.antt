-- ===== src/Dhcp/Exchange/Waits.antt =====
-- The waits for a DHCP reply end, repeat the packet at most three times, and return only replies that
-- were asked for.
use rp1_bootloader_po_c.Base.{get_elem?, ltb_sound, leb_sound, ◌<◌}
use rp1_bootloader_po_c.Base.{◌-◌}
use rp1_bootloader_po_c.Dhcp.{transmit, invalid_packet, unexpected_message, no_tftp_server, encode}
use rp1_bootloader_po_c.Base.{ok_or-eq-ok}
use rp1_bootloader_po_c.Base.{guard-eq-ok}
use rp1_bootloader_po_c.Dhcp.{encode}
use rp1_bootloader_po_c.Base.{==_iff}
use rp1_bootloader_po_c.Base.{ok_or}
use rp1_bootloader_po_c.Base.{ap}
use rp1_bootloader_po_c.Dhcp.Exchange.{max_frame_len}
use rp1_bootloader_po_c.Dhcp.Exchange.{dhcp_max_retries}
use rp1_bootloader_po_c.Base.{bind-eq-ok}
use rp1_bootloader_po_c.Base.{All-append}
use rp1_bootloader_po_c.Base.{min}
use rp1_bootloader_po_c.Base.{
  ℕ, zero, suc, ◌+◌, ◌≡◌, ◌≢◌, ◌≤◌, ◌⊎◌, inl, inr, refl, Bool, Bool-cases, Option-cases, Option,
  none, some, List, [], ◌∷◌, arith, ok, err, Result, length, All, ltb, leb, ◌==◌, ◌&&◌,
  length-append, take,
}
use rp1_bootloader_po_c.Dhcp.{DhcpError, timeout}
use rp1_bootloader_po_c.Dhcp.Message.{DhcpReply, parse_dhcp_reply}
use rp1_bootloader_po_c.Dhcp.Message.Layout.{IsReply, parse_dhcp_reply-IsReply}
use rp1_bootloader_po_c.Dhcp.Exchange.{
  NetApi, UdpDatagram, Poll, Round, Wait, Attempt, replied, expired, pending, judge, judge_datagram,
  judge_frame, judge_poll, attempt, wait_rounds, wait_for_dhcp_reply, resend, send_dhcp_packet,
  resend_end, wrapping_sub, dhcp_timeout_us,
}

-- A round is over when one of its polls comes after the time.
abbrev pub HasExpiry : ℕ → List Poll → Type 0
HasExpiry start [] = ⊥
HasExpiry start (p ∷ ps) = (dhcp_timeout_us ≤ wrapping_sub p.now_us start) ⊎ HasExpiry start ps

abbrev pub IsTimed : Round → Type 0
IsTimed r = HasExpiry r.start_us r.polls

module _ (net : NetApi) (local_mac : List ℕ) (xid expected : ℕ) where
  -- The reply came in this poll: the poll has a received frame of an allowed length, with a datagram
  -- between the DHCP ports that is a reply for this client.
  pub record IsAnsweredBy (poll : Poll) (reply : DhcpReply) : Type 0 where
    pub frame_len : ℕ
    pub rx : List ℕ
    pub received : poll.frame ≡ some (frame_len, rx)
    pub not_too_long : frame_len ≤ max_frame_len
    pub datagram : UdpDatagram
    pub is_parsed : net.parse_udp_ipv4_frame (take frame_len rx) ≡ some datagram
    pub ports : (datagram.src_port ≡ 67) × (datagram.dst_port ≡ 68)
    pub is_reply : IsReply datagram.payload xid local_mac reply
    pub from : reply.lease.reply_src_ip ≡ datagram.src_ip
    pub type_is : reply.message_type ≡ expected

  -- One of the polls, before which no time ran out, has the answer.
  pub record IsAnsweredIn (start : ℕ) (polls : List Poll) (reply : DhcpReply) : Type 0 where
    pub index : ℕ
    pub poll : Poll
    pub is_at : get_elem? polls index ≡ some poll
    pub in_time : All (λ p. wrapping_sub p.now_us start < dhcp_timeout_us) (take (suc index) polls)
    pub answered : IsAnsweredBy poll reply

  -- One of the rounds, among the first `left`, has the answer.
  pub record IsAnswer (left : ℕ) (rounds : List Round) (reply : DhcpReply) : Type 0 where
    pub index : ℕ
    pub few : index < left
    pub round : Round
    pub is_at : get_elem? rounds index ≡ some round
    pub answered : IsAnsweredIn round.start_us round.polls reply

  -- A poll or a round in front of the one with the answer.
  IsAnsweredIn-later :
      (start : ℕ) (p : Poll) (ps : List Poll) (reply : DhcpReply)
      → wrapping_sub p.now_us start < dhcp_timeout_us
      → IsAnsweredIn start ps reply
      → IsAnsweredIn start (p ∷ ps) reply
  IsAnsweredIn-later start p ps reply timely h = record {
    index = suc h.index;
    poll = h.poll;
    is_at = h.is_at;
    in_time = (timely, h.in_time);
    answered = h.answered;
  }

  IsAnswer-later :
      (left : ℕ) (r : Round) (rs : List Round) (reply : DhcpReply)
      → IsAnswer left rs reply
      → IsAnswer (suc left) (r ∷ rs) reply
  IsAnswer-later left r rs reply h = record {
    index = suc h.index;
    few = omega (arith, h.few);
    round = h.round;
    is_at = h.is_at;
    answered = h.answered;
  }

  judge-ok :
      (r : Result DhcpError DhcpReply) (reply : DhcpReply)
      → judge expected r ≡ some (ok reply)
      → (r ≡ ok reply) × (reply.message_type ≡ expected)
  judge-ok (ok r) reply e = elim (Bool-cases (r.message_type == expected)) [
    | inl t ↦
        let same : r ≡ reply = let h = rw t at e in cc in
        (ap ok same, (==_iff reply.message_type expected).0 (rw same at t))
    | inr f ↦ let no = rw f at e in absurd cc
  ]
  judge-ok (err encode) reply e = cc
  judge-ok (err transmit) reply e = cc
  judge-ok (err timeout) reply e = cc
  judge-ok (err invalid_packet) reply e = cc
  judge-ok (err unexpected_message) reply e = cc
  judge-ok (err no_tftp_server) reply e = cc

  judge_datagram-ok :
      (datagram : UdpDatagram) (reply : DhcpReply)
      → judge_datagram net local_mac xid expected datagram ≡ some (ok reply)
      → (datagram.src_port ≡ 67)
        × (datagram.dst_port ≡ 68)
        × (parse_dhcp_reply datagram.payload datagram.src_ip xid local_mac ≡ ok reply)
        × (reply.message_type ≡ expected)
  unfolding judge_datagram
  judge_datagram-ok d reply e = elim (Bool-cases (d.src_port == 67 && d.dst_port == 68)) [
    | inl t ↦
        let (p, q) =
          judge-ok (parse_dhcp_reply d.payload d.src_ip xid local_mac) reply (rw t at e) in
        (ground arith, ground arith, p, q)
    | inr f ↦ let no = rw f at e in absurd cc
  ]

  judge_poll-IsAnsweredBy :
      (now : ℕ) (frame : Option (ℕ × List ℕ)) (reply : DhcpReply)
      → judge_poll net local_mac xid expected frame ≡ some (ok reply)
      → IsAnsweredBy (record { now_us = now; frame = frame }) reply
  unfolding judge_poll judge_frame
  judge_poll-IsAnsweredBy now none reply e = cc
  judge_poll-IsAnsweredBy now (some (n, rx)) reply e = elim (Bool-cases (leb n max_frame_len)) [
    | inr f ↦ let no = rw f at e in absurd cc
    | inl t ↦ elim (Option-cases (net.parse_udp_ipv4_frame (take n rx))) [
      | inl none_parsed ↦ let no = rw (t, none_parsed) at e in absurd cc
      | inr (d, is_parsed) ↦
          let (a, b, c, k) = judge_datagram-ok d reply (rw (t, is_parsed) at e) in
          let (i, from) = parse_dhcp_reply-IsReply d.payload d.src_ip xid local_mac reply c in
          record {
            frame_len = n;
            rx = rx;
            received = refl;
            not_too_long = leb_sound n max_frame_len t;
            datagram = d;
            is_parsed = is_parsed;
            ports = (a, b);
            is_reply = i;
            from = from;
            type_is = k;
          }
    ]
  ]

  attempt-IsAnsweredIn :
      (start : ℕ) (ps : List Poll) (reply : DhcpReply)
      → attempt net local_mac xid expected start ps ≡ replied (ok reply)
      → IsAnsweredIn start ps reply
  unfolding attempt
  attempt-IsAnsweredIn start [] reply e = cc
  attempt-IsAnsweredIn start (p ∷ ps) reply e =
      elim (Bool-cases (ltb (wrapping_sub p.now_us start) dhcp_timeout_us)) [
        | inl t ↦ elim (Option-cases (judge_poll net local_mac xid expected p.frame)) [
          | inl n ↦
              IsAnsweredIn-later start p ps reply (ltb_sound _ _ t)
                (attempt-IsAnsweredIn start ps reply (rw (t, n) at e))
          | inr (r, s) ↦
              let same : r ≡ ok reply = let h = rw (t, s) at e in cc in
              record {
                index = 0;
                poll = p;
                is_at = refl;
                in_time = (ltb_sound _ _ t, tt);
                answered = judge_poll-IsAnsweredBy p.now_us p.frame reply (rw same at s);
              }
        ]
        | inr f ↦ let no = rw f at e in absurd cc
      ]

  attempt-ends :
      (start : ℕ) (ps : List Poll)
      → HasExpiry start ps
      → attempt net local_mac xid expected start ps ≢ pending
  unfolding attempt
  attempt-ends start [] h e = absurd h
  attempt-ends start (p ∷ ps) h e =
      elim (Bool-cases (ltb (wrapping_sub p.now_us start) dhcp_timeout_us)) [
        | inr f ↦ let no = rw f at e in absurd cc
        | inl t ↦ elim h [
          | inl late ↦ absurd (ground arith)
          | inr later ↦ elim (Option-cases (judge_poll net local_mac xid expected p.frame)) [
            | inl n ↦ attempt-ends start ps later (rw (t, n) at e)
            | inr (r, s) ↦ let no = rw (t, s) at e in absurd cc
          ]
        ]
      ]

  resend_end-cases :
      (sent : Result DhcpError (List (List ℕ))) (tried : Attempt) (later : Wait) (reply : DhcpReply)
      {A : Type 0}
      → (tried ≡ replied (ok reply) → A)
      → (later.result ≡ some (ok reply) → A)
      → (resend_end net local_mac xid expected sent tried later).result ≡ some (ok reply)
      → A
  resend_end-cases (err x) tried later reply a b e = cc
  resend_end-cases (ok xs) (replied r) later reply a b e =
      let same : r ≡ ok reply = cc in a (ap replied same)
  resend_end-cases (ok xs) expired later reply a b e = b e
  resend_end-cases (ok xs) pending later reply a b e = cc

  wait_rounds-IsAnswer :
      (left retry : ℕ) (packet : List ℕ) (rounds : List Round) (reply : DhcpReply)
      → (wait_rounds net local_mac xid expected left retry packet rounds).result ≡ some (ok reply)
      → IsAnswer left rounds reply
  unfolding wait_rounds
  wait_rounds-IsAnswer zero retry packet rounds reply e = cc
  wait_rounds-IsAnswer (suc left) retry packet [] reply e = cc
  wait_rounds-IsAnswer (suc left) retry packet (r ∷ rs) reply e =
      resend_end-cases (resend net local_mac xid expected retry packet r.send_accepted)
        (attempt net local_mac xid expected r.start_us r.polls)
        (wait_rounds net local_mac xid expected left (suc retry) packet rs) reply
        (λ h. record {
          index = 0;
          few = omega arith;
          round = r;
          is_at = refl;
          answered = attempt-IsAnsweredIn r.start_us r.polls reply h;
        })
        (λ h.
          IsAnswer-later left r rs reply (wait_rounds-IsAnswer left (suc retry) packet rs reply h))
        e

  -- A reply that a wait returns was received: a poll of one of the first four rounds, no poll up to it
  -- being late, has a frame with a datagram of the server's port for this client that is a reply to this
  -- transaction with the expected message type.
  pub wait_for_dhcp_reply-IsAnswer :
      (packet : List ℕ) (rounds : List Round) (reply : DhcpReply)
      → (wait_for_dhcp_reply net local_mac xid expected packet rounds).result ≡ some (ok reply)
      → IsAnswer 4 rounds reply
  unfolding wait_for_dhcp_reply
  wait_for_dhcp_reply-IsAnswer packet rounds reply e =
      wait_rounds-IsAnswer (dhcp_max_retries + 1) 0 packet rounds reply e

  resend_end-ends :
      (sent : Result DhcpError (List (List ℕ))) (tried : Attempt) (later : Wait)
      → tried ≢ pending
      → later.result ≢ none
      → (resend_end net local_mac xid expected sent tried later).result ≢ none
  resend_end-ends (err x) tried later a b e = cc
  resend_end-ends (ok xs) (replied r) later a b e = cc
  resend_end-ends (ok xs) expired later a b e = b e
  resend_end-ends (ok xs) pending later a b e = a refl

  wait_rounds-ends :
      (left retry : ℕ) (packet : List ℕ) (rounds : List Round)
      → left ≤ length rounds
      → All IsTimed rounds
      → (wait_rounds net local_mac xid expected left retry packet rounds).result ≢ none
  unfolding wait_rounds
  wait_rounds-ends zero retry packet rounds h k = λ e. cc
  wait_rounds-ends (suc left) retry packet [] h k = absurd (omega arith)
  wait_rounds-ends (suc left) retry packet (r ∷ rs) h k =
      resend_end-ends (resend net local_mac xid expected retry packet r.send_accepted)
        (attempt net local_mac xid expected r.start_us r.polls)
        (wait_rounds net local_mac xid expected left (suc retry) packet rs)
        (attempt-ends r.start_us r.polls k.0)
        (wait_rounds-ends left (suc retry) packet rs (omega arith) k.1)

  -- Frames that carry the packet, at most `n` of them.
  pub record IsResent (packet : List ℕ) (n : ℕ) (sent : List (List ℕ)) : Type 0 where
    pub few : length sent ≤ n
    pub same : All (λ frame. net.encode_udp_ipv4_frame local_mac packet ≡ some frame) sent

  send_dhcp_packet-IsResent :
      (packet : List ℕ) (accepted : Bool) (sent : List (List ℕ))
      → send_dhcp_packet net local_mac packet accepted ≡ ok sent
      → IsResent packet 1 sent
  unfolding send_dhcp_packet
  send_dhcp_packet-IsResent packet accepted sent e =
      let (frame, h, e1) =
        bind-eq-ok (ok_or (net.encode_udp_ipv4_frame local_mac packet) encode) _ e in
      let (t, e2) = guard-eq-ok accepted _ _ e1 in
      let done : (frame ∷ []) ≡ sent = cc in
      rw (← done) (record { few = omega arith; same = (ok_or-eq-ok _ _ h, tt) })

  resend_end-IsResent :
      (packet : List ℕ) (m n : ℕ) (sent : Result DhcpError (List (List ℕ))) (tried : Attempt)
      (later : Wait)
      → ((xs : List (List ℕ)) → sent ≡ ok xs → IsResent packet m xs)
      → IsResent packet n later.sent
      → IsResent packet (m + n) (resend_end net local_mac xid expected sent tried later).sent
  resend_end-IsResent packet m n (err x) tried later a b = record { few = omega arith; same = tt }
  resend_end-IsResent packet m n (ok xs) (replied r) later a b = record {
    few = omega (arith, (a xs refl).few);
    same = (a xs refl).same;
  }
  resend_end-IsResent packet m n (ok xs) expired later a b = record {
    few = omega (arith, (a xs refl).few, b.few, length-append xs later.sent);
    same =
        All-append (λ frame. net.encode_udp_ipv4_frame local_mac packet ≡ some frame) xs later.sent
          (a xs refl).same b.same;
  }
  resend_end-IsResent packet m n (ok xs) pending later a b = record {
    few = omega (arith, (a xs refl).few);
    same = (a xs refl).same;
  }

  resend-IsResent :
      (retry : ℕ) (packet : List ℕ) (accepted : Bool) (sent : List (List ℕ))
      → resend net local_mac xid expected retry packet accepted ≡ ok sent
      → IsResent packet (min retry 1) sent
  unfolding resend
  resend-IsResent zero packet accepted sent e =
      let done : [] ≡ sent = cc in rw (← done) (record { few = omega arith; same = tt })
  resend-IsResent (suc retry) packet accepted sent e =
      let i = send_dhcp_packet-IsResent packet accepted sent e in
      record { few = omega (arith, i.few); same = i.same }

  wait_rounds-IsResent :
      (left retry : ℕ) (packet : List ℕ) (rounds : List Round)
      → IsResent packet
          (left - (1 - retry))
          (wait_rounds net local_mac xid expected left retry packet rounds).sent
  unfolding wait_rounds
  wait_rounds-IsResent zero retry packet rounds = record { few = omega arith; same = tt }
  wait_rounds-IsResent (suc left) retry packet [] = record { few = omega arith; same = tt }
  wait_rounds-IsResent (suc left) retry packet (r ∷ rs) =
      let i =
        resend_end-IsResent packet (min retry 1) (left - (1 - suc retry))
          (resend net local_mac xid expected retry packet r.send_accepted)
          (attempt net local_mac xid expected r.start_us r.polls)
          (wait_rounds net local_mac xid expected left (suc retry) packet rs)
          (resend-IsResent retry packet r.send_accepted)
          (wait_rounds-IsResent left (suc retry) packet rs) in
      record { few = omega (arith, i.few); same = i.same }

  -- A wait whose clock runs has a result after at most four rounds, and it has repeated the packet at
  -- most three times and sent nothing else.
  pub wait_for_dhcp_reply-ends :
      (packet : List ℕ) (rounds : List Round)
      → 4 ≤ length rounds
      → All IsTimed rounds
      → ((wait_for_dhcp_reply net local_mac xid expected packet rounds).result ≢ none)
        × IsResent packet 3 (wait_for_dhcp_reply net local_mac xid expected packet rounds).sent
  unfolding wait_for_dhcp_reply
  wait_for_dhcp_reply-ends packet rounds h k =
      (wait_rounds-ends 4 0 packet rounds h k, wait_rounds-IsResent 4 0 packet rounds)
