-- ===== src/Sr/Reads.antt =====
-- The loops of a report on a well-formed chunk bitmap, against the set of marked chunks.
use sdr_rdma_udp.Common.{
  ℕ, zero, suc, ◌+◌, ◌-◌, ◌/◌, ◌≤◌, ◌<◌, ◌≡◌, inl, inr, refl, sym, ap, Bool, true, false, ◌&&◌,
  ◌||◌, some, List, [], ◌∷◌, ◌++◌, ltb, leb, ◌==◌, length, u16, uint16_max, ◌∙◌, arith, Bool-cases,
  lt→ltb,
}
use mathlib.Core.List.{append-nil, append_assoc}
use native.Mathlib.Decide.{ℕ_discrete}
use sdr_rdma_udp.Common.WordArray.{bit_at, mark, bit_at-mark, length-mark}
use sdr_rdma_udp.Frontend.{FrontendBitmap, IsValid, completed}
use sdr_rdma_udp.Frontend.Poll.{frontend_read}
use sdr_rdma_udp.Sr.Report.{prefix_from, snapshot_from, run_from, first_gap, gap_run, gaps_from}

-- The first chunk from `c` on, below `c + n`, that is not in the set, or `c + n`.
pub record IsPrefix (p : ℕ → Bool) (n c stop : ℕ) : Type 0 where
  pub lo : c ≤ stop
  pub hi : stop ≤ c + n
  pub before : (j : ℕ) → c ≤ j → j < stop → p j ≡ true
  pub at_stop : stop < c + n → p stop ≡ false

module _ {f : FrontendBitmap} (v : IsValid f) where
  pub prefix_from-IsPrefix :
      (n c : ℕ) → (stop : ℕ) × (prefix_from f n c ≡ some stop) × IsPrefix (completed f) n c stop
  unfolding prefix_from
  prefix_from-IsPrefix zero c = (
    c,
    refl,
    record {
      lo = omega arith;
      hi = omega arith;
      before = λ j lo hi. absurd (omega arith);
      at_stop = λ h. absurd (omega arith);
    },
  )
  prefix_from-IsPrefix (suc n) c = elim (Bool-cases (completed f c)) [
    | inr missing ↦ (
      c,
      rw (frontend_read c v, missing),
      record {
        lo = omega arith;
        hi = omega arith;
        before = λ j lo hi. absurd (omega arith);
        at_stop = λ h. missing;
      },
    )
    | inl there ↦
        let (stop, returns, r) = prefix_from-IsPrefix n (c + 1) in
        (
          stop,
          rw (frontend_read c v, there) returns,
          record {
            lo = omega (arith, r.lo);
            hi = omega (arith, r.hi);
            before = λ j lo hi. elim (ℕ_discrete c j) [
              | yes e ↦ rw (← e) there
              | no ne ↦ r.before j (omega arith) hi
            ];
            at_stop = λ h. r.at_stop (omega arith);
          },
        )
  ]

  pub run_from_grows : (n c run : ℕ) → (r : ℕ) × (run_from f n c run ≡ some r) × (run ≤ r)
  unfolding run_from
  run_from_grows zero c run = (run, refl, omega arith)
  run_from_grows (suc n) c run = elim (Bool-cases (completed f c)) [
    | inl there ↦ (run, rw (frontend_read c v, there), omega arith)
    | inr missing ↦
        let (r, returns, le) = run_from_grows n (c + 1) (run + 1) in
        (r, rw (frontend_read c v, missing) returns, omega (arith, le))
  ]

  run_from_missing :
      (n c : ℕ) → completed f c ≡ false → (r : ℕ) × (run_from f (suc n) c 0 ≡ some r) × (0 < r)
  unfolding run_from
  run_from_missing n c missing =
      let (r, returns, le) = run_from_grows n (c + 1) 1 in
      (r, rw (frontend_read c v, missing) returns, omega (arith, le))

  -- The first gap begins where the prefix stops, and is not empty.
  pub first_gap_found :
      (n c stop : ℕ)
      → IsPrefix (completed f) n c stop
      → stop < c + n
      → (run : ℕ) × (first_gap f n c ≡ some (stop, run)) × (0 < run)
  unfolding first_gap
  first_gap_found zero c stop p h = absurd (omega (arith, p.lo))
  first_gap_found (suc n) c stop p h = elim (ℕ_discrete c stop) [
    | yes e ↦
        let missing : completed f c ≡ false = rw e (p.at_stop h) in
        let (run, returns, pos) = run_from_missing n c missing in
        (run, rw (frontend_read c v, missing, returns) (ap (λ k. some (k, run)) e), pos)
    | no ne ↦
        let there : completed f c ≡ true = p.before c (omega arith) (omega (arith, p.lo)) in
        let (run, returns, pos) =
          first_gap_found n (c + 1) stop
            (record {
              lo = omega (arith, p.lo);
              hi = omega (arith, p.hi);
              before = λ j lo hi. p.before j (omega arith) hi;
              at_stop = λ k. p.at_stop (omega arith);
            })
            (omega arith) in
        (run, rw (frontend_read c v, there) returns, pos)
  ]

  pub first_gap_none :
      (n c : ℕ)
      → ((j : ℕ) → c ≤ j → j < c + n → completed f j ≡ true)
      → first_gap f n c ≡ some (0, 0)
  unfolding first_gap
  first_gap_none zero c all = refl
  first_gap_none (suc n) c all =
      rw (frontend_read c v, all c (omega arith) (omega arith))
        (first_gap_none n (c + 1) (λ j lo hi. all j (omega arith) (omega arith)))

  -- The snapshot has the bits of the chunks that are complete, and those that were there.
  pub snapshot_from_lem :
      (n c : ℕ) (words : List ℕ)
      → c + n ≤ 512
      → length words ≡ 8
      → (out : List ℕ) × (snapshot_from f n c words ≡ some out)
        × (length out ≡ 8)
        × ((j : ℕ) → bit_at out j ≡ ((leb c j && ltb j (c + n) && completed f j) || bit_at words j))
  unfolding snapshot_from mark
  snapshot_from_lem zero c words h len = (words, refl, len, λ j. none_yet j)
    where
      none_yet :
          (j : ℕ) → bit_at words j ≡ ((leb c j && ltb j (c + 0) && completed f j) || bit_at words j)
      none_yet j = ground arith
  snapshot_from_lem (suc n) c words h len = elim (Bool-cases (completed f c)) [
    | inr missing ↦
        let (out, returns, same, bits) = snapshot_from_lem n (c + 1) words (omega arith) len in
        (out, rw (frontend_read c v, missing) returns, same, λ j. bits j ∙ skip missing j)
    | inl there ↦
        let size : length (mark words c) ≡ 8 = length-mark words c ∙ len in
        let fits : ltb (c / 64) 8 ≡ true = lt→ltb (c / 64) 8 (omega arith) in
        let (out, returns, same, bits) =
          snapshot_from_lem n (c + 1) (mark words c) (omega arith) size in
        (
          out,
          rw (frontend_read c v, there, fits) returns,
          same,
          λ j. bits j ∙ rw (bit_at-mark words c j (omega arith)) (add there j),
        )
  ]
    where
      skip :
          completed f c ≡ false
          → (j : ℕ)
          → ((leb (c + 1) j && ltb j (c + 1 + n) && completed f j) || bit_at words j)
            ≡ ((leb c j && ltb j (c + suc n) && completed f j) || bit_at words j)
      skip missing j = elim (ℕ_discrete c j) [
        | yes e ↦ rw (← e, missing) (ground arith)
        | no ne ↦ ground arith
      ]

      add :
          completed f c ≡ true
          → (j : ℕ)
          → ((leb (c + 1) j && ltb j (c + 1 + n) && completed f j) || ((c == j) || bit_at words j))
            ≡ ((leb c j && ltb j (c + suc n) && completed f j) || bit_at words j)
      add there j = elim (ℕ_discrete c j) [
        | yes e ↦ rw (← e, there) (ground arith)
        | no ne ↦ ground arith
      ]

  -- The length of a gap grows from what it was.
  gap_run_returns : (n c len : ℕ) → (r : ℕ) × (gap_run f n c len ≡ some r) × (len ≤ r)
  unfolding gap_run
  gap_run_returns zero c len = (len, refl, omega arith)
  gap_run_returns (suc n) c len = elim (Bool-cases (completed f c || leb uint16_max len)) [
    | inl stop ↦ (len, rw (frontend_read c v, stop), omega arith)
    | inr go ↦
        let (r, returns, grows) = gap_run_returns n (c + 1) (len + 1) in
        (r, rw (frontend_read c v, go) returns, omega arith)
  ]

  gap_run_missing :
      (n c : ℕ) → completed f c ≡ false → (r : ℕ) × (gap_run f (suc n) c 0 ≡ some r) × (0 < r)
  unfolding gap_run
  gap_run_missing n c missing =
      let (r, returns, grows) = gap_run_returns n (c + 1) (0 + 1) in
      let go : (completed f c || leb uint16_max 0) ≡ false = ground (arith, missing) in
      (r, rw (frontend_read c v, go) returns, omega arith)

  -- As many rounds as there are chunks left are enough for the loop over the gaps.
  pub gaps_from_returns :
      (total fuel c : ℕ) (gaps : List (ℕ × ℕ))
      → total ≤ c + fuel
      → (r : List (ℕ × ℕ)) × (gaps_from f total fuel c gaps ≡ some r)
        × (more : List (ℕ × ℕ)) × (r ≡ gaps ++ more)
  unfolding gaps_from
  gaps_from_returns total zero c gaps h = (gaps, ground arith, [], sym (append-nil gaps))
  gaps_from_returns total (suc fuel) c gaps h =
      elim (Bool-cases (leb total c || leb 4 (length gaps))) [
        | inl stop ↦ (gaps, rw stop, [], sym (append-nil gaps))
        | inr go ↦ elim (Bool-cases (completed f c)) [
          | inl there ↦
              let (r, returns, rest, e) = gaps_from_returns total fuel (c + 1) gaps (omega arith) in
              (r, rw (go, frontend_read c v, there) returns, rest, e)
          | inr missing ↦
              let (len, ran, grows) = gap_run_returns (total - c) c 0 in
              let (r, returns, rest, e) =
                gaps_from_returns total fuel (c + len + 1) (gaps ++ ((u16 c, len) ∷ []))
                  (omega arith) in
              (
                r,
                rw (go, frontend_read c v, missing, ran) returns,
                (u16 c, len) ∷ rest,
                e ∙ append_assoc gaps ((u16 c, len) ∷ []) rest,
              )
        ]
      ]

  -- The first gap of the list is that of the first missing chunk.
  pub gaps_from_first :
      (total fuel c stop : ℕ)
      → IsPrefix (completed f) (total - c) c stop
      → stop < total
      → total ≤ c + fuel
      → (len : ℕ) × (more : List (ℕ × ℕ)) × (gaps_from f total fuel c []
          ≡ some ((u16 stop, len) ∷ more))
        × (0 < len)
  unfolding gaps_from
  gaps_from_first total zero c stop p below enough = absurd (omega (arith, p.lo))
  gaps_from_first total (suc fuel) c stop p below enough =
      let go : leb total c ≡ false = ground (arith, p.lo) in
      elim (ℕ_discrete c stop) [
        | yes e ↦
            let missing : completed f c ≡ false = rw e (p.at_stop (omega (arith, p.lo))) in
            let left : total - c ≡ suc (total - c - 1) = omega (arith, p.lo) in
            let (len, ran, pos) = gap_run_missing (total - c - 1) c missing in
            let run : gap_run f (total - c) c 0 ≡ some len = ap (λ n. gap_run f n c 0) left ∙ ran in
            let (r, returns, more, ext) =
              gaps_from_returns total fuel (c + len + 1) ((u16 c, len) ∷ []) (omega arith) in
            (
              len,
              more,
              rw (go, frontend_read c v, missing, run)
                  (returns ∙ ap some (ext ∙ ap (λ k. (u16 k, len) ∷ more) e)),
              pos,
            )
        | no ne ↦
            let there : completed f c ≡ true = p.before c (omega arith) (omega (arith, p.lo)) in
            let (len, more, returns, pos) =
              gaps_from_first total fuel (c + 1) stop
                (record {
                  lo = omega (arith, p.lo);
                  hi = omega (arith, p.hi);
                  before = λ j lo hi. p.before j (omega arith) hi;
                  at_stop = λ k. p.at_stop (omega (arith, p.lo));
                })
                below (omega arith) in
            (len, more, rw (go, frontend_read c v, there) returns, pos)
      ]
