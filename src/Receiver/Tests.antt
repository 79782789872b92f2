-- ===== src/Receiver/Tests.antt =====
-- Writes into a buffer of five bytes.
use sdr_rdma_udp.Common.{◌*◌, ◌-◌, ◌≡◌, refl, none, [], ◌∷◌, min, arith}
use sdr_rdma_udp.Control.{zero_params}
use sdr_rdma_udp.Connection.{MessageContext, empty_context, active, user, completed_context}
use sdr_rdma_udp.Receiver.{write_packet_to_buffer}
use sdr_rdma_udp.Receiver.Blocks.{Memory, IsWritten}
use sdr_rdma_udp.Receiver.Write.{write-IsWritten, write-completed}

abbrev blank : Memory
blank = record { buffers = λ _. 0 ∷ 0 ∷ 0 ∷ 0 ∷ 0 ∷ []; sink = 0 ∷ [] }

abbrev receiving : MessageContext
receiving = record empty_context {
  state = active;
  buffer = user 0;
  buffer_size = 5;
  connection_params = record zero_params { mtu_bytes = 2 };
}

write-IsWritten_example :
    IsWritten blank 0
      (2 * 2)
      (8 ∷ 9 ∷ [])
      (min 2 (5 - 2 * 2))
      (write_packet_to_buffer receiving blank 2 (8 ∷ 9 ∷ []) 2)
write-IsWritten_example =
    write-IsWritten receiving blank 0 refl (omega arith) 2 (8 ∷ 9 ∷ []) 2 (omega arith)
      (omega arith) (omega arith)

write-completed_example :
    write_packet_to_buffer (completed_context receiving) blank 1 (8 ∷ 9 ∷ []) 2 ≡ none
write-completed_example =
    write-completed receiving blank 1 (8 ∷ 9 ∷ []) 2 refl (omega arith) (omega arith) (omega arith)
