-- ===== src/Ec/Gaps.antt =====
-- sdr-udp/reliability/ec.cpp: the gaps that the receiver reports, and the chunks that the sender sends
-- again for them.
use sdr_rdma_udp.Common.{
  ℕ, zero, suc, ◌+◌, ◌^◌, ◌≤◌, ◌<◌, ◌≡◌, ◌⊎◌, refl, sym, ap, ◌∙◌, subst, inl, inr, Bool, true,
  false, some, List, [], ◌∷◌, ◌++◌, map, ltb, ◌==◌, if◌then◌else◌, length, replicate, get_elem?,
  get_or, u16, arith, Bool-cases, lt→ltb, length-append, length-map, length-take, get_or-take,
  get_or-append_left, get_elem?-eq-get_or,
}
use mathlib.Core.List.{append-nil, append_assoc}
use sdr_rdma_udp.Control.{ControlMessage, ControlMsgType}
use sdr_rdma_udp.Transfer.Deliver.{All}
use sdr_rdma_udp.Ec.{take_run, collapse, fill_up, gaps_message}
use sdr_rdma_udp.Ec.Sender.{EcSender, resend, resend_gap, resend_gaps}

-- The `n` numbers from `c` on.
abbrev pub range_from : ℕ → ℕ → List ℕ
range_from zero c = []
range_from (suc n) c = c ∷ range_from n (c + 1)

-- The chunks of some gaps.
abbrev pub expand : List (ℕ × ℕ) → List ℕ
expand [] = []
expand (g ∷ gs) = range_from g.1 g.0 ++ expand gs

range_from-suc : (n c : ℕ) → range_from (n + 1) c ≡ range_from n c ++ ((c + n) ∷ [])
range_from-suc zero c = let e : c + 0 ≡ c = omega arith in rw e refl
range_from-suc (suc n) c =
    let e : suc n + 1 ≡ suc (n + 1) = omega arith in
    let f : c + suc n ≡ c + 1 + n = omega arith in rw (e, f) (ap (◌∷◌ c) (range_from-suc n (c + 1)))

take_run_lem :
    (start lenrun : ℕ) (rest : List ℕ)
    → range_from lenrun start ++ rest
      ≡ range_from (take_run start lenrun rest).0 start ++ (take_run start lenrun rest).1
unfolding take_run
take_run_lem start lenrun [] = refl
take_run_lem start lenrun (c ∷ rest) = elim (Bool-cases (c == start + lenrun)) [
  | inl t ↦
      let e : c ≡ start + lenrun = ground arith in
      rw t (
        ap (λ x. range_from lenrun start ++ (x ∷ rest)) e
        ∙ sym (append_assoc (range_from lenrun start) ((start + lenrun) ∷ []) rest)
        ∙ ap (λ xs. xs ++ rest) (sym (range_from-suc lenrun start))
        ∙ take_run_lem start (lenrun + 1) rest)
  | inr f ↦ rw f refl
]

-- Collapsed to gaps, the missing chunks are those of the gaps, and some that are left out.
pub left_out : ℕ → List ℕ → List ℕ
left_out zero missing = missing
left_out (suc n) [] = []
left_out (suc n) (start ∷ rest) = left_out n (take_run start 1 rest).1

pub expand-collapse :
    (n : ℕ) (missing : List ℕ) → expand (collapse n missing) ++ left_out n missing ≡ missing
unfolding collapse left_out
expand-collapse zero missing = refl
expand-collapse (suc n) [] = refl
expand-collapse (suc n) (start ∷ rest) =
    let r = take_run start 1 rest in
    append_assoc (range_from r.0 start) (expand (collapse n r.1)) (left_out n r.1)
    ∙ ap (λ xs. range_from r.0 start ++ xs) (expand-collapse n r.1)
    ∙ sym (take_run_lem start 1 rest)

-- Only a full message leaves some out.
pub left_out_full :
    (n : ℕ) (missing : List ℕ) → (left_out n missing ≡ []) ⊎ (length (collapse n missing) ≡ n)
unfolding collapse left_out
left_out_full zero missing = inr refl
left_out_full (suc n) [] = inl refl
left_out_full (suc n) (start ∷ rest) = elim (left_out_full n (take_run start 1 rest).1) [
  | inl e ↦ inl e
  | inr e ↦ inr (ap suc e)
]

length-collapse : (n : ℕ) (missing : List ℕ) → length (collapse n missing) ≤ n
unfolding collapse
length-collapse zero missing = omega arith
length-collapse (suc n) [] = omega arith
length-collapse (suc n) (start ∷ rest) = omega (arith, length-collapse n (take_run start 1 rest).1)

-- A gap inside the chunks: its chunks are all below the bound.
IsInside : ℕ → ℕ × ℕ → Type 0
IsInside d g = (0 < g.1) × (g.0 + g.1 ≤ d)

take_run_grows : (start lenrun : ℕ) (rest : List ℕ) → lenrun ≤ (take_run start lenrun rest).0
unfolding take_run
take_run_grows start lenrun [] = omega arith
take_run_grows start lenrun (c ∷ rest) = elim (Bool-cases (c == start + lenrun)) [
  | inl t ↦ rw t (omega (arith, take_run_grows start (lenrun + 1) rest))
  | inr f ↦ rw f (omega arith)
]

All-front : (P : ℕ → Type 0) (xs ys : List ℕ) → All P (xs ++ ys) → All P xs × All P ys
All-front P [] ys h = (tt, h)
All-front P (x ∷ xs) ys h = let r = All-front P xs ys h.1 in ((h.0, r.0), r.1)

range_from-below : (d n c : ℕ) → All (λ i. i < d) (range_from n c) → 0 < n → c + n ≤ d
range_from-below d zero c h pos = absurd (omega arith)
range_from-below d (suc zero) c h pos = omega (arith, h.0)
range_from-below d (suc (suc n)) c h pos =
    omega (arith, range_from-below d (suc n) (c + 1) h.1 (omega arith))

abbrev AllInside : ℕ → List (ℕ × ℕ) → Type 0
AllInside d [] = Unit {0}
AllInside d (g ∷ gs) = IsInside d g × AllInside d gs

collapse-AllInside :
    (d n : ℕ) (missing : List ℕ) → All (λ i. i < d) missing → AllInside d (collapse n missing)
unfolding collapse IsInside
collapse-AllInside d zero missing h = tt
collapse-AllInside d (suc n) [] h = tt
collapse-AllInside d (suc n) (start ∷ rest) h =
    let r = take_run start 1 rest in
    let pos : 0 < r.0 = omega (arith, take_run_grows start 1 rest) in
    let parts =
      All-front (λ i. i < d) (range_from r.0 start) r.1
        (subst (All (λ i. i < d)) (take_run_lem start 1 rest) h) in
    ((pos, range_from-below d r.0 start parts.0 pos), collapse-AllInside d n r.1 parts.1)

-- The chunks of a list whose flag is not set.
abbrev pub unacked : List Bool → List ℕ → List ℕ
unacked acked [] = []
unacked acked (c ∷ cs) = if get_or acked c false then unacked acked cs else c ∷ unacked acked cs

unacked-append :
    (acked : List Bool) (xs ys : List ℕ)
    → unacked acked (xs ++ ys) ≡ unacked acked xs ++ unacked acked ys
unacked-append acked [] ys = refl
unacked-append acked (c ∷ xs) ys = elim (Bool-cases (get_or acked c false)) [
  | inl t ↦ rw t (unacked-append acked xs ys)
  | inr f ↦ rw f (ap (◌∷◌ c) (unacked-append acked xs ys))
]

-- The sender after some more calls of `retransmit_chunk`.
abbrev pub resend_all : EcSender → List ℕ → EcSender
resend_all s cs = record s { resent = s.resent ++ cs }

resend_all-append :
    (s : EcSender) (xs ys : List ℕ) → resend_all (resend_all s xs) ys ≡ resend_all s (xs ++ ys)
resend_all-append s xs ys = ap (λ cs. record s { resent = cs }) (append_assoc s.resent xs ys)

resend_gap_lem :
    (d n c : ℕ) (s : EcSender)
    → c + n ≤ d
    → d ≤ length s.acked
    → resend_gap d n c s ≡ some (resend_all s (unacked s.acked (range_from n c)))
unfolding resend_gap
resend_gap_lem d zero c s inside flags =
    ap (λ cs. some (record s { resent = cs })) (sym (append-nil s.resent))
resend_gap_lem d (suc n) c s inside flags =
    let in_range : ltb c d ≡ true = lt→ltb c d (omega arith) in
    elim (Bool-cases (get_or s.acked c false)) [
      | inl t ↦
          rw (in_range, get_elem?-eq-get_or s.acked c false (omega arith), t)
            (resend_gap_lem d n (c + 1) s (omega arith) flags)
      | inr f ↦
          rw (in_range, get_elem?-eq-get_or s.acked c false (omega arith), f)
            (resend_gap_lem d n (c + 1) (resend s c) (omega arith) flags
              ∙ ap some (resend_all-append s (c ∷ []) (unacked s.acked (range_from n (c + 1)))))
    ]

-- A message whose entries from `i` on are the gaps of a list.
record Holds (msg : ControlMessage) (i : ℕ) (gs : List (ℕ × ℕ)) : Type 0 where
  pub starts :
      (j : ℕ) → j < length gs → get_elem? msg.gap_start (i + j) ≡ some (get_or gs j (0, 0)).0
  pub lengths :
      (j : ℕ) → j < length gs → get_elem? msg.gap_len (i + j) ≡ some (get_or gs j (0, 0)).1

Holds-tail :
    {msg : ControlMessage} {i : ℕ} {g : ℕ × ℕ} {gs : List (ℕ × ℕ)}
    → Holds msg i (g ∷ gs)
    → Holds msg (i + 1) gs
Holds-tail {msg} {i} h = record {
  starts = λ j lt.
      ap (get_elem? msg.gap_start) (let e : i + 1 + j ≡ i + suc j = omega arith in e)
      ∙ h.starts (suc j) (omega arith);
  lengths = λ j lt.
      ap (get_elem? msg.gap_len) (let e : i + 1 + j ≡ i + suc j = omega arith in e)
      ∙ h.lengths (suc j) (omega arith);
}

resend_gaps_lem :
    (msg : ControlMessage) (d : ℕ) (gs : List (ℕ × ℕ)) (i : ℕ) (s : EcSender)
    → Holds msg i gs
    → AllInside d gs
    → d ≤ length s.acked
    → resend_gaps msg d (length gs) i s ≡ some (resend_all s (unacked s.acked (expand gs)))
unfolding resend_gaps IsInside
resend_gaps_lem msg d [] i s h inside flags =
    ap (λ cs. some (record s { resent = cs })) (sym (append-nil s.resent))
resend_gaps_lem msg d (g ∷ gs) i s h inside flags =
    let here : i + 0 ≡ i = omega arith in
    let first = unacked s.acked (range_from g.1 g.0) in
    rw
      (
        rw here at (h.starts 0 (omega arith)),
        rw here at (h.lengths 0 (omega arith)),
        resend_gap_lem d g.1 g.0 s inside.0.1 flags,
        unacked-append s.acked (range_from g.1 g.0) (expand gs),
      )
      (resend_gaps_lem msg d gs (i + 1) (resend_all s first) (Holds-tail h) inside.1 flags
        ∙ ap some (resend_all-append s first (unacked s.acked (expand gs))))

-- The first 16 entries are those that are filled in.
get_elem?-fill_up :
    (xs : List ℕ) (j : ℕ)
    → j < length xs
    → length xs ≤ 16
    → get_elem? (fill_up xs) j ≡ some (get_or xs j 0)
get_elem?-fill_up xs j lt few =
    let size : length (fill_up xs) ≡ 16 =
      omega (arith, length-take 16 (xs ++ replicate 16 0), length-append xs (replicate 16 0)) in
    get_elem?-eq-get_or (fill_up xs) j 0 (omega arith)
    ∙ ap some (
        get_or-take 16 j (xs ++ replicate 16 0) 0 (omega arith)
        ∙ get_or-append_left xs (replicate 16 0) j 0 lt)

get_or-map :
    (f : ℕ × ℕ → ℕ) (gs : List (ℕ × ℕ)) (j : ℕ)
    → j < length gs
    → get_or (map f gs) j 0 ≡ f (get_or gs j (0, 0))
get_or-map f [] j lt = absurd (omega arith)
get_or-map f (g ∷ gs) zero lt = refl
get_or-map f (g ∷ gs) (suc j) lt = get_or-map f gs j (omega arith)

entry-IsInside :
    (d : ℕ) (gs : List (ℕ × ℕ)) (j : ℕ)
    → AllInside d gs
    → j < length gs
    → IsInside d (get_or gs j (0, 0))
entry-IsInside d [] j h lt = absurd (omega arith)
entry-IsInside d (g ∷ gs) zero h lt = h.0
entry-IsInside d (g ∷ gs) (suc j) h lt = entry-IsInside d gs j h.1 (omega arith)

entry :
    (f : ℕ × ℕ → ℕ) (gs : List (ℕ × ℕ)) (j : ℕ)
    → j < length gs
    → length gs ≤ 16
    → get_elem? (fill_up (map f gs)) (0 + j) ≡ some (f (get_or gs j (0, 0)))
entry f gs j lt few =
    ap (get_elem? (fill_up (map f gs))) (let e : 0 + j ≡ j = omega arith in e)
    ∙ get_elem?-fill_up (map f gs) j (omega (arith, length-map f gs))
        (omega (arith, length-map f gs))
    ∙ ap some (get_or-map f gs j lt)

gaps_message-Holds :
    (msg_type : ControlMsgType) (id d : ℕ) (missing : List ℕ)
    → All (λ c. c < d) missing
    → d < 2 ^ 16
    → Holds (gaps_message msg_type id missing) 0 (collapse 16 missing)
unfolding gaps_message IsInside
gaps_message-Holds msg_type id d missing below small =
    let gs = collapse 16 missing in
    let within = λ (j : ℕ) (lt : j < length gs).
      entry-IsInside d gs j (collapse-AllInside d 16 missing below) lt in
    record {
      starts = λ j lt.
          entry (λ g. u16 g.0) gs j lt (length-collapse 16 missing)
          ∙ ap some (omega (arith, within j lt));
      lengths = λ j lt.
          entry (λ g. u16 g.1) gs j lt (length-collapse 16 missing)
          ∙ ap some (omega (arith, within j lt));
    }

-- What the sender sends again for the message.
pub resend_gaps-gaps_message :
    (msg_type : ControlMsgType) (id d : ℕ) (missing : List ℕ) (s : EcSender)
    → All (λ c. c < d) missing
    → d < 2 ^ 16
    → d ≤ length s.acked
    → resend_gaps
        (gaps_message msg_type id missing)
        d
        (gaps_message msg_type id missing).num_gaps
        0
        s
      ≡ some (resend_all s (unacked s.acked (expand (collapse 16 missing))))
unfolding gaps_message
resend_gaps-gaps_message msg_type id d missing s below small flags =
    resend_gaps_lem (gaps_message msg_type id missing) d (collapse 16 missing) 0 s
      (gaps_message-Holds msg_type id d missing below small) (collapse-AllInside d 16 missing below)
      flags

-- The chunks that the first gaps of a message name: `n` of its entries from entry `i` on.
abbrev pub chunks_named : ControlMessage → ℕ → ℕ → List ℕ
chunks_named msg zero i = []
chunks_named msg (suc n) i =
    range_from (get_or msg.gap_len i 0) (get_or msg.gap_start i 0) ++ chunks_named msg n (i + 1)

get_or-get_elem? :
    (xs : List ℕ) (i : ℕ) {v : ℕ} (other : ℕ) → get_elem? xs i ≡ some v → get_or xs i other ≡ v
get_or-get_elem? [] i other e = ground arith
get_or-get_elem? (x ∷ xs) zero other e = ground arith
get_or-get_elem? (x ∷ xs) (suc i) other e = get_or-get_elem? xs i other e

chunks_named-Holds :
    (msg : ControlMessage) (gs : List (ℕ × ℕ)) (i : ℕ)
    → Holds msg i gs
    → chunks_named msg (length gs) i ≡ expand gs
chunks_named-Holds msg [] i h = refl
chunks_named-Holds msg (g ∷ gs) i h =
    let here : i + 0 ≡ i = omega arith in
    rw
      (
        get_or-get_elem? msg.gap_start i 0 (rw here at (h.starts 0 (omega arith))),
        get_or-get_elem? msg.gap_len i 0 (rw here at (h.lengths 0 (omega arith))),
      )
      (ap (λ cs. range_from g.1 g.0 ++ cs) (chunks_named-Holds msg gs (i + 1) (Holds-tail h)))

pub chunks_named-gaps_message :
    (msg_type : ControlMsgType) (id d : ℕ) (missing : List ℕ)
    → All (λ c. c < d) missing
    → d < 2 ^ 16
    → let msg = gaps_message msg_type id missing in
      chunks_named msg msg.num_gaps 0 ≡ expand (collapse 16 missing)
unfolding gaps_message
chunks_named-gaps_message msg_type id d missing below small =
    chunks_named-Holds (gaps_message msg_type id missing) (collapse 16 missing) 0
      (gaps_message-Holds msg_type id d missing below small)
