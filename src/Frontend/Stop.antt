-- ===== src/Frontend/Stop.antt =====
-- The count of marked chunks when the poller stops.
use sdr_rdma_udp.Common.{◌≡◌, true, false, some, inl, inr, count_from, Bool-cases}
use sdr_rdma_udp.Frontend.{
  FrontendBitmap, stop_polling, get_total_chunks_completed, IsValid, completed,
}
use sdr_rdma_udp.Frontend.Poll.{get_total_chunks_completed_lem}

pub count-stop_polling :
    {f : FrontendBitmap} (v : IsValid f)
    → get_total_chunks_completed (stop_polling f) ≡ some (count_from (completed f) f.total_chunks 0)
unfolding stop_polling completed
count-stop_polling {f} v = elim (Bool-cases f.polling) [
  | inr idle ↦
      let f' : FrontendBitmap = record f { polling = false } in
      let v' : IsValid f' = record { words = v.words; covers = v.covers; sized = v.sized } in
      rw idle (get_total_chunks_completed_lem v')
  | inl running ↦
      let f' : FrontendBitmap = record f { should_stop = true; polling = false } in
      let v' : IsValid f' = record { words = v.words; covers = v.covers; sized = v.sized } in
      rw running (get_total_chunks_completed_lem v')
]
