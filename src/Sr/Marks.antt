-- ===== src/Sr/Marks.antt =====
-- What the sender's loops mark, entry by entry.
use sdr_rdma_udp.Common.{
  ℕ, zero, suc, ◌+◌, ◌-◌, ◌*◌, ◌/◌, ◌%◌, ◌^◌, ◌≤◌, ◌<◌, ◌≡◌, inl, inr, refl, ◌∙◌, Bool, true, false,
  ◌&&◌, ◌||◌, List, bit_and, ltb, leb, ◌==◌, length, get_or, set, length-set, get_or-set_self,
  get_or-set_ne, arith, Bool-cases,
}
use native.Mathlib.Decide.{ℕ_discrete}
use sdr_rdma_udp.Common.Bits.{test_bit}
use sdr_rdma_udp.Common.Bits.Mask.{bit_and-pow_eq_zero}
use sdr_rdma_udp.Common.WordArray.{bit_at}
use sdr_rdma_udp.Sr.Acks.{apply_word, apply_words, ack_from}

-- Setting one entry marks it, and no other.
marked_one :
    (acked : List Bool) (c j : ℕ)
    → c < length acked
    → get_or (set acked c true) j false ≡ (get_or acked j false || (c == j))
marked_one acked c j h = elim (ℕ_discrete c j) [
  | yes e ↦ rw (← e, get_or-set_self acked c true false h) (ground arith)
  | no ne ↦ rw (get_or-set_ne acked c j true false ne) (ground arith)
]

pub length-apply_word :
    (m word w n bit : ℕ) (acked : List Bool)
    → length (apply_word m word w n bit acked) ≡ length acked
unfolding apply_word
length-apply_word m word w zero bit acked = refl
length-apply_word m word w (suc n) bit acked = elim (Bool-cases (leb m (w * 64 + bit))) [
  | inl out ↦ rw out
  | inr inside ↦ elim (Bool-cases (bit_and word (2 ^ bit) == 0)) [
    | inl clear ↦ rw (inside, clear) (length-apply_word m word w n (bit + 1) acked)
    | inr there ↦
        rw (inside, there)
          (length-apply_word m word w n (bit + 1) (set acked (w * 64 + bit) true)
            ∙ length-set acked (w * 64 + bit) true)
  ]
]

pub apply_word_lem :
    (m word w n bit : ℕ) (acked : List Bool) (j : ℕ)
    → m ≤ length acked
    → j < m
    → get_or (apply_word m word w n bit acked) j false ≡ (
        get_or acked j false
        || (leb (w * 64 + bit) j && ltb j (w * 64 + bit + n) && test_bit word (j - w * 64)))
unfolding apply_word
apply_word_lem m word w zero bit acked j len h = ground arith
apply_word_lem m word w (suc n) bit acked j len h = elim (Bool-cases (leb m (w * 64 + bit))) [
  | inl out ↦ rw out (ground arith)
  | inr inside ↦ elim (Bool-cases (test_bit word bit)) [
    | inr clear ↦
        rw (inside, bit_and-pow_eq_zero word bit, clear)
          (apply_word_lem m word w n (bit + 1) acked j len h ∙ skip clear)
    | inl there ↦
        rw (inside, bit_and-pow_eq_zero word bit, there)
          (apply_word_lem m word w n (bit + 1) (set acked (w * 64 + bit) true) j
              (omega (arith, length-set acked (w * 64 + bit) true)) h
            ∙ rw (marked_one acked (w * 64 + bit) j (ground arith)) (add there))
  ]
]
  where
    skip :
        test_bit word bit ≡ false
        → (get_or acked j false
            || (leb (w * 64 + (bit + 1)) j
                && ltb j (w * 64 + (bit + 1) + n)
                && test_bit word (j - w * 64)))
          ≡ (get_or acked j false
              || (leb (w * 64 + bit) j
                  && ltb j (w * 64 + bit + suc n)
                  && test_bit word (j - w * 64)))
    skip clear = elim (ℕ_discrete (w * 64 + bit) j) [
      | yes e ↦ let k : j - w * 64 ≡ bit = omega arith in rw (k, clear) (ground arith)
      | no ne ↦ ground arith
    ]

    add :
        test_bit word bit ≡ true
        → ((get_or acked j false || ((w * 64 + bit) == j))
            || (leb (w * 64 + (bit + 1)) j
                && ltb j (w * 64 + (bit + 1) + n)
                && test_bit word (j - w * 64)))
          ≡ (get_or acked j false
              || (leb (w * 64 + bit) j
                  && ltb j (w * 64 + bit + suc n)
                  && test_bit word (j - w * 64)))
    add there = elim (ℕ_discrete (w * 64 + bit) j) [
      | yes e ↦ let k : j - w * 64 ≡ bit = omega arith in rw (k, there) (ground arith)
      | no ne ↦ ground arith
    ]

pub length-apply_words :
    (m : ℕ) (bitmap : List ℕ) (n w : ℕ) (acked : List Bool)
    → length (apply_words m bitmap n w acked) ≡ length acked
unfolding apply_words
length-apply_words m bitmap zero w acked = refl
length-apply_words m bitmap (suc n) w acked =
    length-apply_words m bitmap n (w + 1) (apply_word m (get_or bitmap w 0) w 64 0 acked)
    ∙ length-apply_word m (get_or bitmap w 0) w 64 0 acked

pub apply_words_lem :
    (m : ℕ) (bitmap : List ℕ) (n w : ℕ) (acked : List Bool) (j : ℕ)
    → m ≤ length acked
    → j < m
    → get_or (apply_words m bitmap n w acked) j false
      ≡ (get_or acked j false || (leb (w * 64) j && ltb j ((w + n) * 64) && bit_at bitmap j))
unfolding apply_words bit_at
apply_words_lem m bitmap zero w acked j len h = ground arith
apply_words_lem m bitmap (suc n) w acked j len h =
    let first : List Bool = apply_word m (get_or bitmap w 0) w 64 0 acked in
    apply_words_lem m bitmap n (w + 1) first j
      (omega (arith, length-apply_word m (get_or bitmap w 0) w 64 0 acked)) h
    ∙ rw (apply_word_lem m (get_or bitmap w 0) w 64 0 acked j len h) merge
  where
    merge :
        ((get_or acked j false
            || (leb (w * 64 + 0) j
                && ltb j (w * 64 + 0 + 64)
                && test_bit (get_or bitmap w 0) (j - w * 64)))
          || (leb ((w + 1) * 64) j && ltb j ((w + 1 + n) * 64) && bit_at bitmap j))
        ≡ (get_or acked j false || (leb (w * 64) j && ltb j ((w + suc n) * 64) && bit_at bitmap j))
    merge = elim (ℕ_discrete (j / 64) w) [
      | yes e ↦ let k : j - w * 64 ≡ j % 64 = omega arith in rw (e, k) (ground arith)
      | no ne ↦ ground arith
    ]

pub length-ack_from : (n c : ℕ) (acked : List Bool) → length (ack_from n c acked) ≡ length acked
unfolding ack_from
length-ack_from zero c acked = refl
length-ack_from (suc n) c acked =
    length-ack_from n (c + 1) (set acked c true) ∙ length-set acked c true

pub ack_from_lem :
    (n c : ℕ) (acked : List Bool) (j : ℕ)
    → c + n ≤ length acked
    → get_or (ack_from n c acked) j false ≡ (get_or acked j false || (leb c j && ltb j (c + n)))
unfolding ack_from
ack_from_lem zero c acked j h = ground arith
ack_from_lem (suc n) c acked j h =
    ack_from_lem n (c + 1) (set acked c true) j (omega (arith, length-set acked c true))
    ∙ rw (marked_one acked c j (omega arith)) (ground arith)
