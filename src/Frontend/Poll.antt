-- ===== src/Frontend/Poll.antt =====
-- What a poll does to the set of complete chunks.
use sdr_rdma_udp.Common.{
  ℕ, zero, suc, ◌+◌, ◌/◌, ◌^◌, ◌≤◌, ◌<◌, ◌≡◌, inl, inr, refl, ap, ◌∙◌, Bool, true, false, ◌&&◌,
  ◌||◌, Option, some, ltb, leb, ◌==◌, if◌then◌else◌, length-replicate, u32, arith, Bool-cases,
  lt→ltb, le→ltb, leb→le, count_from,
}
use native.Mathlib.Decide.{ℕ_discrete}
use sdr_rdma_udp.Common.WordArray.{
  bit_at, mark, load-test, fetch_or-mark, old-test, bit_at-mark, mark-AreWords, length-mark,
  bit_at-replicate, replicate-AreWords,
}
use sdr_rdma_udp.Backend.{BackendBitmap, chunk_received}
use sdr_rdma_udp.Backend
use sdr_rdma_udp.Backend.Chunk.{is_chunk_complete_lem}
use sdr_rdma_udp.Frontend.{
  FrontendBitmap, new, is_chunk_complete, count_completed, get_total_chunks_completed,
  check_and_set_chunk, update_chunks, update_chunk_bitmap, poll_once, IsValid, completed, Fits,
}

pub new-IsValid : (b : Option BackendBitmap) (n : ℕ) → n + 63 < 2 ^ 32 → IsValid (new b n)
unfolding new
new-IsValid b n small = record {
  words = replicate-AreWords (u32 (n + 63) / 64);
  covers = omega (arith, length-replicate (u32 (n + 63) / 64) (let z : ℕ = 0 in z));
  sized = length-replicate (u32 (n + 63) / 64) 0;
}

pub completed-new : (b : Option BackendBitmap) (n c : ℕ) → completed (new b n) c ≡ false
unfolding new completed
completed-new b n c = rw (bit_at-replicate (u32 (n + 63) / 64) c) (and_false (ltb c n))
  where
    and_false : (x : Bool) → (x && false) ≡ false
    and_false true = refl
    and_false false = refl

pub frontend_read :
    {f : FrontendBitmap} (c : ℕ) → IsValid f → is_chunk_complete f c ≡ some (completed f c)
unfolding is_chunk_complete completed
frontend_read {f} c v = elim (Bool-cases (leb f.total_chunks c)) [
  | inl out ↦ rw (out, le→ltb c f.total_chunks (leb→le _ _ out))
  | inr inside ↦
      let h : c < f.total_chunks = ground arith in
      rw (inside, lt→ltb c f.total_chunks h) (load-test f.chunk_bitmap c (omega (arith, v.covers)))
]

-- The count of complete chunks.
pub count_completed_lem :
    {f : FrontendBitmap} (v : IsValid f) (n i count : ℕ)
    → count_completed f n i count ≡ some (count + count_from (completed f) n i)
unfolding count_completed
count_completed_lem v zero i count = ap some (omega arith)
count_completed_lem {f} v (suc n) i count =
    rw
      (
        frontend_read i v,
        count_completed_lem v n (i + 1) (if completed f i then count + 1 else count),
      )
      (ap some (tally (completed f i)))
  where
    tally :
        (x : Bool)
        → (if x then count + 1 else count) + count_from (completed f) n (i + 1)
          ≡ count + ((if x then 1 else 0) + count_from (completed f) n (i + 1))
    tally true = omega arith
    tally false = omega arith

pub get_total_chunks_completed_lem :
    {f : FrontendBitmap}
    → IsValid f
    → get_total_chunks_completed f ≡ some (count_from (completed f) f.total_chunks 0)
unfolding get_total_chunks_completed
get_total_chunks_completed_lem {f} v =
    count_completed_lem v f.total_chunks 0 0 ∙ ap some (omega arith)

-- The bitmap with chunk `c` marked.
pub mark_chunk : FrontendBitmap → ℕ → FrontendBitmap
mark_chunk f c = record f { chunk_bitmap = mark f.chunk_bitmap c }

pub mark_chunk-IsValid :
    {f : FrontendBitmap} (c : ℕ) → c < f.total_chunks → IsValid f → IsValid (mark_chunk f c)
unfolding mark_chunk
mark_chunk-IsValid {f} c h v = record {
  words = mark-AreWords f.chunk_bitmap c (omega (arith, v.covers)) v.words;
  covers = omega (arith, v.covers, length-mark f.chunk_bitmap c);
  sized = length-mark f.chunk_bitmap c ∙ v.sized;
}

pub completed-mark_chunk :
    {f : FrontendBitmap} (c j : ℕ)
    → c < f.total_chunks
    → IsValid f
    → completed (mark_chunk f c) j ≡ ((c == j) || completed f j)
unfolding completed mark_chunk
completed-mark_chunk {f} c j h v =
    rw (bit_at-mark f.chunk_bitmap c j (omega (arith, v.covers))) (ground arith)

-- One chunk of a poll: what it returns, and what it leaves.
abbrev pub checked : BackendBitmap → FrontendBitmap → ℕ → FrontendBitmap
checked b f c = if completed f c then f else if chunk_received b c then mark_chunk f c else f

pub check_and_set_chunk_lem :
    {b : BackendBitmap} {f : FrontendBitmap} (c : ℕ)
    → Backend.IsValid b
    → IsValid f
    → Fits b f
    → c < f.total_chunks
    → check_and_set_chunk b f c ≡ some (completed f c || chunk_received b c, checked b f c)
unfolding check_and_set_chunk mark_chunk
check_and_set_chunk_lem {b} {f} c vb v fit h = elim (Bool-cases (completed f c)) [
  | inl done ↦ rw (frontend_read c v, done)
  | inr open_yet ↦
      rw (frontend_read c v, open_yet, is_chunk_complete_lem vb c (fit.has_packet c h) fit.pos)
        (elim (Bool-cases (chunk_received b c)) [
          | inr missing ↦ rw missing
          | inl full ↦
              rw
                (
                  full,
                  fetch_or-mark f.chunk_bitmap c (omega (arith, v.covers)),
                  old-test f.chunk_bitmap c,
                )
                (let clear : bit_at f.chunk_bitmap c ≡ false =
                    unfold completed in ground (arith, lt→ltb c f.total_chunks h) in
                  rw clear)
        ])
]

module _ (b : BackendBitmap) {f : FrontendBitmap} (c : ℕ) (v : IsValid f)
    (h : c < f.total_chunks) where
  pub checked-IsValid : IsValid (checked b f c)
  checked-IsValid = elim (Bool-cases (completed f c)) [
    | inl done ↦ rw done v
    | inr rest ↦ rw rest (elim (Bool-cases (chunk_received b c)) [
      | inl full ↦ rw full (mark_chunk-IsValid c h v)
      | inr missing ↦ rw missing v
    ])
  ]

  pub total_chunks-checked : (checked b f c).total_chunks ≡ f.total_chunks
  unfolding mark_chunk
  total_chunks-checked = ground arith

  -- Chunk `c` is marked if it is complete; no other chunk changes.
  pub completed-checked :
      (j : ℕ) → completed (checked b f c) j ≡ (completed f j || ((c == j) && chunk_received b j))
  completed-checked j = elim (ℕ_discrete c j) [
    | yes e ↦ rw (← e) (ground (arith, completed-mark_chunk c c h v))
    | no ne ↦ ground (arith, completed-mark_chunk c j h v)
  ]

pub Fits-same :
    {b : BackendBitmap} {f g : FrontendBitmap}
    → g.total_chunks ≡ f.total_chunks
    → Fits b f
    → Fits b g
Fits-same e fit = record { pos = fit.pos; has_packet = λ c h. fit.has_packet c (omega arith) }

-- What a run of the loop leaves: the chunks of the run that are complete in the packet bitmap are
-- marked, and the others are as they were.
pub record IsPolled (b : BackendBitmap) (f : FrontendBitmap) (i n : ℕ) (out : Option FrontendBitmap)
    : Type 0 where
  pub after : FrontendBitmap
  pub returns : out ≡ some after
  pub valid : IsValid after
  pub same_chunks : after.total_chunks ≡ f.total_chunks
  pub shows :
      (j : ℕ)
      → completed after j ≡ (completed f j || (leb i j && (ltb j (i + n) && chunk_received b j)))

module _ {b : BackendBitmap} (vb : Backend.IsValid b) where
  update_chunks-IsPolled :
      (n i : ℕ) (f : FrontendBitmap)
      → IsValid f
      → Fits b f
      → i + n ≤ f.total_chunks
      → IsPolled b f i n (update_chunks b n i f)
  unfolding update_chunks
  update_chunks-IsPolled zero i f v fit h = record {
    after = f;
    returns = refl;
    valid = v;
    same_chunks = refl;
    shows = λ j. ground arith;
  }
  update_chunks-IsPolled (suc n) i f v fit h =
      let here : i < f.total_chunks = omega arith in
      let same = total_chunks-checked b i v here in
      let rest =
        update_chunks-IsPolled n (i + 1) (checked b f i) (checked-IsValid b i v here)
          (Fits-same same fit) (omega arith) in
      rw (check_and_set_chunk_lem i vb v fit here) (record {
        after = rest.after;
        returns = rest.returns;
        valid = rest.valid;
        same_chunks = rest.same_chunks ∙ same;
        shows = λ j. ground (arith, rest.shows j, completed-checked b i v here j);
      })

  -- With both bitmaps well formed and a packet for each chunk, a poll marks exactly the chunks
  -- whose packets have all been received, keeps the marks that were there, and stays inside both
  -- arrays.
  pub poll_once-IsPolled :
      (f : FrontendBitmap)
      → IsValid f
      → Fits b f
      → IsPolled b f 0 f.total_chunks (poll_once (some b) f)
  unfolding poll_once update_chunk_bitmap
  poll_once-IsPolled f v fit = update_chunks-IsPolled f.total_chunks 0 f v fit (omega arith)
