-- ===== src/Frontend/Tracking.antt =====
-- The packet bitmap and the chunk bitmap together, under any interleaving of the receiver threads'
-- updates with the poller's rounds. The poller's loop is taken apart: each chunk that it checks is a
-- step of its own.
use sdr_rdma_udp.Common.{
  ℕ, ◌<◌, ◌≡◌, ap, ◌∙◌, Bool, true, some, arith, all_from, all_from_intro, all_from_elim,
  count_from_full,
}
use sdr_rdma_udp.Backend.{BackendBitmap, received, chunk_received, set_packet_received}
use sdr_rdma_udp.Backend
use sdr_rdma_udp.Backend.Laws.{
  add_packet, set_packet_received_lem, add_packet-IsValid, total-add_packet, per_chunk-add_packet,
  chunk_received_iff, chunk_received-add_packet,
}
use sdr_rdma_udp.Frontend.{
  FrontendBitmap, check_and_set_chunk, poll_once, get_total_chunks_completed, completed, Fits,
}
use sdr_rdma_udp.Frontend
use sdr_rdma_udp.Frontend.Poll.{
  checked, check_and_set_chunk_lem, checked-IsValid, total_chunks-checked, completed-checked,
  Fits-same, poll_once-IsPolled, get_total_chunks_completed_lem,
}

pub record Bitmaps : Type 0 where
  pub packets : BackendBitmap
  pub chunks : FrontendBitmap

-- One step of a thread: a receiver sets the bit of a packet, or the poller checks a chunk.
pub data Step (s t : Bitmaps) : Type 0 where
  packet :
      (i : ℕ) (new : Bool) (b : BackendBitmap)
      → set_packet_received s.packets i ≡ some (new, b)
      → t ≡ record s { packets = b }
      → Step s t
  check :
      (c : ℕ) (marked : Bool) (f : FrontendBitmap)
      → c < s.chunks.total_chunks
      → check_and_set_chunk s.packets s.chunks c ≡ some (marked, f)
      → t ≡ record s { chunks = f }
      → Step s t

pub data Reach (s : Bitmaps) : Bitmaps → Type 0 where
  here : Reach s s
  next : {t u : Bitmaps} → Reach s t → Step t u → Reach s u

-- No chunk is shown complete that is not.
pub record IsSound (s : Bitmaps) : Type 0 where
  pub packets_valid : Backend.IsValid s.packets
  pub chunks_valid : Frontend.IsValid s.chunks
  pub fits : Fits s.packets s.chunks
  pub sound : (c : ℕ) → completed s.chunks c ≡ true → chunk_received s.packets c ≡ true

Step-IsSound : {s t : Bitmaps} → Step s t → IsSound s → IsSound t
Step-IsSound {s} {t} (packet i new b e to) v =
    let b_is : b ≡ add_packet s.packets i =
      ground (arith, set_packet_received_lem i v.packets_valid) in
    rw (to, b_is)
      (record {
        packets_valid = add_packet-IsValid i v.packets_valid;
        chunks_valid = v.chunks_valid;
        fits = record {
          pos = rw (per_chunk-add_packet s.packets i) v.fits.pos;
          has_packet =
              rw (per_chunk-add_packet s.packets i, total-add_packet s.packets i) v.fits.has_packet;
        };
        sound = λ c h. chunk_received-add_packet i c v.packets_valid (v.sound c h);
      })
Step-IsSound {s} {t} (check c marked f below e to) v =
    let f_is : f ≡ checked s.packets s.chunks c =
      ground (arith, check_and_set_chunk_lem c v.packets_valid v.chunks_valid v.fits below) in
    rw (to, f_is)
      (record {
        packets_valid = v.packets_valid;
        chunks_valid = checked-IsValid s.packets c v.chunks_valid below;
        fits = Fits-same (total_chunks-checked s.packets c v.chunks_valid below) v.fits;
        sound =
            λ j h. ground (arith, completed-checked s.packets c v.chunks_valid below j, v.sound j);
      })

-- From sound bitmaps, in every interleaving of packets and checks, a chunk that is shown complete
-- has all its packets, and both bitmaps keep their representation.
pub Reach-IsSound : {s t : Bitmaps} → IsSound s → Reach s t → IsSound t
Reach-IsSound v here = v
Reach-IsSound v (next r st) = Step-IsSound st (Reach-IsSound v r)

-- From sound bitmaps, once every packet of the message has been received, one poll marks every
-- chunk, and the count of complete chunks reaches the total.
pub poll_complete :
    {s : Bitmaps}
    → IsSound s
    → all_from (received s.packets) s.packets.total_packets 0 ≡ true
    → (f : FrontendBitmap) × (poll_once (some s.packets) s.chunks ≡ some f)
      × (all_from (completed f) s.chunks.total_chunks 0 ≡ true)
      × (get_total_chunks_completed f ≡ some s.chunks.total_chunks)
poll_complete {s} v all =
    let p = poll_once-IsPolled v.packets_valid s.chunks v.chunks_valid v.fits in
    let full : (c : ℕ) → chunk_received s.packets c ≡ true = λ c.
      (chunk_received_iff s.packets c).1 (λ i lo hi below.
        all_from_elim (received s.packets) s.packets.total_packets 0 all i (omega arith)
          (omega arith)) in
    let marked : (c : ℕ) → c < s.chunks.total_chunks → completed p.after c ≡ true =
      λ c below. ground (arith, p.shows c, full c) in
    let total : get_total_chunks_completed p.after ≡ some s.chunks.total_chunks =
      get_total_chunks_completed_lem p.valid
      ∙ ap some (
          count_from_full (completed p.after) p.after.total_chunks 0
            (λ c lo hi. marked c (omega (arith, p.same_chunks))))
      ∙ ap some p.same_chunks in
    (
      p.after,
      p.returns,
      all_from_intro (completed p.after) s.chunks.total_chunks 0
          (λ c lo hi. marked c (omega arith)),
      total,
    )
