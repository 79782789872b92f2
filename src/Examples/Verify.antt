-- ===== src/Examples/Verify.antt =====
-- The bytes that sdr-udp/examples/sdr_test_sender.cpp sends, and the test of them at the end of
-- sdr_test_receiver.cpp.
use sdr_rdma_udp.Common.{
  ℕ, zero, suc, ◌+◌, ◌-◌, ◌≤◌, ◌<◌, ◌≡◌, refl, ap, ◌∙◌, sym, subst, inl, inr, Bool, true, false,
  Option, some, List, [], ◌∷◌, ltb, ◌==◌, ==_iff, if◌then◌else◌, ◌>>=◌, Bool-cases, length, take,
  get_elem?, get_or, get_or_ext, get_or-take, length-take, get_elem?-eq-get_or, all_from_elim, min,
  u8, uint64_max, arith, all_from,
}

-- `n` bytes of the pattern, from byte `i` on.
unfoldable pub pattern_from : ℕ → ℕ → List ℕ
pattern_from zero i = []
pattern_from (suc n) i = u8 i ∷ pattern_from n (i + 1)

-- `send_buffer`
unfoldable pub send_buffer : ℕ → List ℕ
unfolding pattern_from
send_buffer message_size = pattern_from message_size 0

-- The loop, with `n` rounds left from byte `i` on: `data_valid` and `first_mismatch`, which is
-- `SIZE_MAX` before a mismatch. `none` is a read outside the buffer.
unfoldable pub verify_from : List ℕ → ℕ → ℕ → Bool → ℕ → Option (Bool × ℕ)
verify_from buffer zero i valid first = some (valid, first)
verify_from buffer (suc n) i valid first = get_elem? buffer i >>= λ actual.
    let mismatch = if first == uint64_max then i else first in
    let next = verify_from buffer n (i + 1) valid first in
    let wrong = verify_from buffer n (i + 1) false mismatch in
    if actual == u8 i then next else if ltb 10 (i - mismatch) then some (false, mismatch) else wrong

-- The verification of the first 1024 bytes, or of all if there are fewer.
unfoldable pub verify : List ℕ → ℕ → Option (Bool × ℕ)
unfolding verify_from
verify buffer message_size = verify_from buffer (min message_size 1024) 0 true uint64_max

-- Whether byte `i` of a buffer is that of the pattern.
abbrev pub matches : List ℕ → ℕ → Bool
matches buffer i = get_or buffer i 0 == u8 i

length-pattern_from : (n i : ℕ) → length (pattern_from n i) ≡ n
unfolding pattern_from
length-pattern_from zero i = refl
length-pattern_from (suc n) i = omega (arith, length-pattern_from n (i + 1))

get_or-pattern_from : (n i j : ℕ) → j < n → get_or (pattern_from n i) j 0 ≡ u8 (i + j)
unfolding pattern_from
get_or-pattern_from zero i j h = absurd (omega arith)
get_or-pattern_from (suc n) i zero h = omega arith
get_or-pattern_from (suc n) i (suc j) h =
    omega (arith, get_or-pattern_from n (i + 1) j (omega arith))

pub length-send_buffer : (n : ℕ) → length (send_buffer n) ≡ n
unfolding send_buffer
length-send_buffer n = length-pattern_from n 0

get_or-send_buffer : (n i : ℕ) → i < n → get_or (send_buffer n) i 0 ≡ u8 i
unfolding send_buffer
get_or-send_buffer n i h =
    get_or-pattern_from n 0 i h ∙ ap u8 (let z : 0 + i ≡ i = omega arith in z)

-- Where the first `n` bytes match one by one, they are the pattern.
take-send_buffer :
    (buffer : List ℕ) (n : ℕ)
    → n ≤ length buffer
    → all_from (matches buffer) n 0 ≡ true
    → take n buffer ≡ send_buffer n
take-send_buffer buffer n room all =
    get_or_ext 0 (take n buffer) (send_buffer n)
      (omega (arith, length-take n buffer, length-send_buffer n))
      (λ j h.
        let below : j < n = omega (arith, length-take n buffer) in
        get_or-take n j buffer 0 below
        ∙ (==_iff (get_or buffer j 0) (u8 j)).0
            (all_from_elim (matches buffer) n 0 all j (omega arith) (omega arith))
        ∙ sym (get_or-send_buffer n j below))

-- Once a byte is wrong the rest changes nothing.
verify_from_wrong :
    (buffer : List ℕ) (n i first : ℕ)
    → i + n ≤ length buffer
    → first < uint64_max
    → verify_from buffer n i false first ≡ some (false, first)
unfolding verify_from
verify_from_wrong buffer zero i first room small = refl
verify_from_wrong buffer (suc n) i first room small = ground (
  arith,
  get_elem?-eq-get_or buffer i 0 (omega arith),
  verify_from_wrong buffer n (i + 1) first (omega arith) small,
)

-- How the loop can end.
data Ends (buffer : List ℕ) (n i : ℕ) : Option (Bool × ℕ) → Type 0 where
  right : all_from (matches buffer) n i ≡ true → Ends buffer n i (some (true, uint64_max))
  wrong :
      (k : ℕ)
      → k < n
      → all_from (matches buffer) k i ≡ true
      → matches buffer (i + k) ≡ false
      → Ends buffer n i (some (false, i + k))

Ends-extend :
    {buffer : List ℕ} {n i : ℕ} {r : Option (Bool × ℕ)}
    → matches buffer i ≡ true
    → Ends buffer n (i + 1) r
    → Ends buffer (suc n) i r
Ends-extend t (right all) = right (ground (arith, t, all))
Ends-extend {buffer} {n} {i} t (wrong k below all f) =
    let e : i + suc k ≡ i + 1 + k = omega arith in
    subst (λ m. Ends buffer (suc n) i (some (false, m))) e
      (wrong (suc k) (omega arith) (ground (arith, t, all)) (ap (matches buffer) e ∙ f))

verify_from-Ends :
    (buffer : List ℕ) (n i : ℕ)
    → i + n ≤ length buffer
    → i + n < uint64_max
    → Ends buffer n i (verify_from buffer n i true uint64_max)
unfolding verify_from
verify_from-Ends buffer zero i room small = right refl
verify_from-Ends buffer (suc n) i room small =
    let e = get_elem?-eq-get_or buffer i 0 (omega arith) in
    elim (Bool-cases (get_or buffer i 0 == u8 i)) [
      | inl t ↦
          rw (e, t) (Ends-extend t (verify_from-Ends buffer n (i + 1) (omega arith) (omega arith)))
      | inr f ↦
          rw (e, f, verify_from_wrong buffer n (i + 1) i (omega arith) (omega arith))
            (subst (λ r. Ends buffer (suc n) i r) (ground arith)
              (wrong 0 (omega arith) refl
                (ap (matches buffer) (let z : i + 0 ≡ i = omega arith in z) ∙ f)))
    ]

-- What the verification says: that the bytes are those of the pattern, or the first that is not.
pub data IsVerdict (buffer : List ℕ) (n : ℕ) : Option (Bool × ℕ) → Type 0 where
  passed : take n buffer ≡ send_buffer n → IsVerdict buffer n (some (true, uint64_max))
  failed :
      (first_mismatch : ℕ)
      → first_mismatch < n
      → take first_mismatch buffer ≡ send_buffer first_mismatch
      → matches buffer first_mismatch ≡ false
      → IsVerdict buffer n (some (false, first_mismatch))

Ends-IsVerdict :
    {buffer : List ℕ} {n : ℕ} {r : Option (Bool × ℕ)}
    → n ≤ length buffer
    → Ends buffer n 0 r
    → IsVerdict buffer n r
Ends-IsVerdict {buffer} {n} room (right all) = passed (take-send_buffer buffer n room all)
Ends-IsVerdict {buffer} {n} room (wrong k below all f) =
    let z : k ≡ 0 + k = omega arith in
    subst (λ m. IsVerdict buffer n (some (false, m))) z
      (failed k below (take-send_buffer buffer k (omega arith) all) (ap (matches buffer) z ∙ f))

-- For a buffer with room for the message: the verification reads inside it, and either passes, and
-- the message's first 1024 bytes, or all of them, are the sender's pattern, or fails with the index
-- of the first byte that is not.
pub verify-IsVerdict :
    (buffer : List ℕ) (message_size : ℕ)
    → message_size ≤ length buffer
    → IsVerdict buffer (min message_size 1024) (verify buffer message_size)
unfolding verify
verify-IsVerdict buffer message_size room =
    Ends-IsVerdict (omega arith)
      (verify_from-Ends buffer (min message_size 1024) 0 (omega arith) (omega arith))

matches-take :
    (buffer : List ℕ) (n i : ℕ) → i < n → take n buffer ≡ send_buffer n → matches buffer i ≡ true
matches-take buffer n i below same = (==_iff (get_or buffer i 0) (u8 i)).1 (
    sym (get_or-take n i buffer 0 below)
    ∙ ap (λ xs. get_or xs i 0) same
    ∙ get_or-send_buffer n i below)

passes :
    {buffer : List ℕ} {n m : ℕ} {r : Option (Bool × ℕ)}
    → m ≤ n
    → take n buffer ≡ send_buffer n
    → IsVerdict buffer m r
    → r ≡ some (true, uint64_max)
passes le same (passed e) = refl
passes {buffer} {n} le same (failed k below e f) =
    absurd (ground (arith, f, matches-take buffer n k (omega arith) same))

-- A buffer that begins with the whole message passes.
pub verify-send_buffer :
    (buffer : List ℕ) (message_size : ℕ)
    → take message_size buffer ≡ send_buffer message_size
    → verify buffer message_size ≡ some (true, uint64_max)
verify-send_buffer buffer message_size same =
    let room : message_size ≤ length buffer = omega (
      arith,
      length-take message_size buffer,
      length-send_buffer message_size,
      ap (λ xs. length xs) same,
    ) in
    passes (let le : min message_size 1024 ≤ message_size = omega arith in le) same
      (verify-IsVerdict buffer message_size room)
