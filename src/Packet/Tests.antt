-- ===== src/Packet/Tests.antt =====
-- Headers at concrete values, on a little-endian platform.
use sdr_rdma_udp.Common.{◌+◌, ◌^◌, ◌≡◌, refl, [], arith}
use sdr_rdma_udp.Packet.{
  SdrPacketHeader, IsHeader, zero_header, magic_value, header_size, max_payload_size,
  to_network_order, to_host_order, get_chunk_id, get_packet_in_chunk, create_data_packet,
}
use sdr_rdma_udp.Packet.Order.{to_host_order-to_network_order}
use sdr_rdma_udp.Packet.LittleEndian.{swapping}

abbrev sample : SdrPacketHeader
sample = record zero_header {
  magic = magic_value;
  transfer_id = 7;
  msg_id = 3;
  packet_offset = 70;
  packets_per_chunk = 32;
  payload_len = 1024;
}

sample-IsHeader : IsHeader sample
sample-IsHeader = omega arith

-- The struct takes 32 bytes, and the largest payload is short of 64 KiB by 40.
sizes : (header_size ≡ 32) × (max_payload_size ≡ 65496)
sizes = (refl, refl)

chunk-sample : (get_chunk_id sample ≡ 2) × (get_packet_in_chunk sample ≡ 6)
unfolding get_chunk_id get_packet_in_chunk
chunk-sample = (refl, refl)

-- Packets whose numbers differ by 2 ^ 18 get one header.
aliased : create_data_packet 7 3 (70 + 2 ^ 18) 32 [] 0 ≡ create_data_packet 7 3 70 32 [] 0
unfolding create_data_packet
aliased = refl

to_host_order-to_network_order_example :
    to_host_order swapping (to_network_order swapping sample) ≡ sample
to_host_order-to_network_order_example = to_host_order-to_network_order swapping sample-IsHeader
