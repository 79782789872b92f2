-- ===== src/Packet/Order.antt =====
-- A header in network order.
use sdr_rdma_udp.Common.{◌≡◌, arith}
use sdr_rdma_udp.Packet.{SdrPacketHeader, ByteOrder, IsHeader, to_network_order, to_host_order}

module _ (o : ByteOrder) {h : SdrPacketHeader} (v : IsHeader h) where
  -- Converting a header whose fields fit to network order and back gives the header.
  pub to_host_order-to_network_order : to_host_order o (to_network_order o h) ≡ h
  unfolding to_host_order to_network_order
  to_host_order-to_network_order = ground (
    arith,
    o.ntohs-htons h.magic v.magic_fits,
    o.ntohs-htons h.submsg_id v.submsg_id_fits,
    o.ntohs-htons h.packets_per_chunk v.packets_per_chunk_fits,
    o.ntohs-htons h.fec_k v.fec_k_fits,
    o.ntohs-htons h.fec_m v.fec_m_fits,
    o.ntohs-htons h.parity_idx v.parity_idx_fits,
    o.ntohs-htons h.payload_len v.payload_len_fits,
    o.ntohl-htonl h.transfer_id v.transfer_id_fits,
    o.ntohl-htonl h.chunk_seq v.chunk_seq_fits,
  )

  pub to_network_order-IsHeader : IsHeader (to_network_order o h)
  unfolding to_network_order
  to_network_order-IsHeader = ground (
    arith,
    o.htons-lt h.magic v.magic_fits,
    o.htons-lt h.submsg_id v.submsg_id_fits,
    o.htons-lt h.packets_per_chunk v.packets_per_chunk_fits,
    o.htons-lt h.fec_k v.fec_k_fits,
    o.htons-lt h.fec_m v.fec_m_fits,
    o.htons-lt h.parity_idx v.parity_idx_fits,
    o.htons-lt h.payload_len v.payload_len_fits,
    o.htonl-lt h.transfer_id v.transfer_id_fits,
    o.htonl-lt h.chunk_seq v.chunk_seq_fits,
  )
