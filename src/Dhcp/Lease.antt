-- ===== src/Dhcp/Lease.antt =====
-- The choice of the TFTP server from a lease.
use rp1_bootloader_po_c.Base.{refl, ◌<◌}
use rp1_bootloader_po_c.Dhcp.{no_tftp_server}
use rp1_bootloader_po_c.Base.{
  ℕ, ◌≡◌, ◌⊎◌, inl, inr, Option, none, some, ok, err, arith, Option-cases,
}
use rp1_bootloader_po_c.Dhcp.{
  DhcpLease, NetworkBootLease, Ipv4Addr, TftpServerSource, nonzero_ip, nonzero_ip_opt, dhcp_opt66,
  dhcp_siaddr, dhcp_server_id, dhcp_reply_source, select_tftp_server, select_network_boot_lease,
}

-- The address that a source of the lease offers; an address of four zero bytes is none.
abbrev pub offered : DhcpLease → TftpServerSource → Option Ipv4Addr
offered lease dhcp_opt66 = nonzero_ip_opt lease.opt66_tftp_server
offered lease dhcp_siaddr = nonzero_ip_opt lease.siaddr
offered lease dhcp_server_id = nonzero_ip_opt lease.server_id
offered lease dhcp_reply_source = nonzero_ip lease.reply_src_ip

abbrev pub rank : TftpServerSource → ℕ
rank dhcp_opt66 = 0
rank dhcp_siaddr = 1
rank dhcp_server_id = 2
rank dhcp_reply_source = 3

-- The server of a lease: the best source that offers an address.
pub record IsServer (lease : DhcpLease) (chosen : NetworkBootLease) : Type 0 where
  pub is_offered : offered lease chosen.tftp_server_source ≡ some chosen.tftp_server_ip
  pub is_best :
      (source : TftpServerSource)
      → rank source < rank chosen.tftp_server_source
      → offered lease source ≡ none
  pub same_client : chosen.client_ip ≡ lease.client_ip
  pub same_mask : chosen.subnet_mask ≡ lease.subnet_mask
  pub same_router : chosen.router ≡ lease.router

up_to :
    (lease : DhcpLease) (k : ℕ)
    → (0 < k → offered lease dhcp_opt66 ≡ none)
    → (1 < k → offered lease dhcp_siaddr ≡ none)
    → (2 < k → offered lease dhcp_server_id ≡ none)
    → (3 < k → offered lease dhcp_reply_source ≡ none)
    → (source : TftpServerSource) → rank source < k
    → offered lease source ≡ none
up_to lease k a b c d dhcp_opt66 h = a h
up_to lease k a b c d dhcp_siaddr h = b h
up_to lease k a b c d dhcp_server_id h = c h
up_to lease k a b c d dhcp_reply_source h = d h

rank-lt : (source : TftpServerSource) → rank source < 4
rank-lt dhcp_opt66 = omega arith
rank-lt dhcp_siaddr = omega arith
rank-lt dhcp_server_id = omega arith
rank-lt dhcp_reply_source = omega arith

chosen-IsServer :
    (lease : DhcpLease) (source : TftpServerSource) (ip : Ipv4Addr)
    → offered lease source ≡ some ip
    → ((other : TftpServerSource) → rank other < rank source → offered lease other ≡ none)
    → select_tftp_server lease ≡ ok (ip, source)
    → (chosen : NetworkBootLease) × (select_network_boot_lease lease ≡ ok chosen)
      × IsServer lease chosen
unfolding select_network_boot_lease
chosen-IsServer lease source ip e best s = (
  record {
    client_ip = lease.client_ip;
    subnet_mask = lease.subnet_mask;
    router = lease.router;
    tftp_server_ip = ip;
    tftp_server_source = source;
  },
  rw (select_network_boot_lease, s) refl,
  record {
    is_offered = e;
    is_best = best;
    same_client = refl;
    same_mask = refl;
    same_router = refl;
  },
)

-- The selection takes the best source that offers an address and leaves the rest of the lease alone;
-- it fails exactly when no source offers one.
pub select_network_boot_lease-IsServer :
    (lease : DhcpLease)
    → ((chosen : NetworkBootLease) × (select_network_boot_lease lease ≡ ok chosen)
        × IsServer lease chosen)
      ⊎ ((select_network_boot_lease lease ≡ err no_tftp_server)
          × ((source : TftpServerSource) → offered lease source ≡ none))
unfolding select_network_boot_lease select_tftp_server
select_network_boot_lease-IsServer lease =
    elim (Option-cases (nonzero_ip_opt lease.opt66_tftp_server)) [
      | inr (ip, e) ↦ inl (
          chosen-IsServer lease dhcp_opt66 ip e
            (up_to lease 0 (λ h. absurd (omega arith)) (λ h. absurd (omega arith))
              (λ h. absurd (omega arith)) (λ h. absurd (omega arith)))
            (rw e refl))
      | inl e1 ↦ elim (Option-cases (nonzero_ip_opt lease.siaddr)) [
        | inr (ip, e) ↦ inl (
            chosen-IsServer lease dhcp_siaddr ip e
              (up_to lease 1 (λ h. e1) (λ h. absurd (omega arith)) (λ h. absurd (omega arith))
                (λ h. absurd (omega arith)))
              (rw (e1, e) refl))
        | inl e2 ↦ elim (Option-cases (nonzero_ip_opt lease.server_id)) [
          | inr (ip, e) ↦ inl (
              chosen-IsServer lease dhcp_server_id ip e
                (up_to lease 2 (λ h. e1) (λ h. e2) (λ h. absurd (omega arith))
                  (λ h. absurd (omega arith)))
                (rw (e1, e2, e) refl))
          | inl e3 ↦ elim (Option-cases (nonzero_ip lease.reply_src_ip)) [
            | inr (ip, e) ↦ inl (
                chosen-IsServer lease dhcp_reply_source ip e
                  (up_to lease 3 (λ h. e1) (λ h. e2) (λ h. e3) (λ h. absurd (omega arith)))
                  (rw (e1, e2, e3, e) refl))
            | inl e4 ↦ inr (
              rw (e1, e2, e3, e4) refl,
              λ source.
                  up_to lease 4 (λ h. e1) (λ h. e2) (λ h. e3) (λ h. e4) source (rank-lt source),
            )
          ]
        ]
      ]
    ]
