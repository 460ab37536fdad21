-- ===== src/SizeServer/Handler/Ends.antt =====
-- What holds of the two threads in every order of their steps, and that they end.
use public_trash.Base.{
  ℕ, zero, suc, ◌+◌, ◌≤◌, ◌≡◌, ◌≢◌, ◌⊎◌, inl, inr, refl, sym, ap, ap₂, ◌∙◌, true, [], ◌∷◌, ◌++◌,
  length, length-append, replicate, arith,
}
use public_trash.SizeServer.{generate_data, next_size, initial_size, sent, sender, sender_from}
use public_trash.SizeServer.Sizes.{size_of, next_size-size_of}
use public_trash.SizeServer.Handler.{
  Phase, testing, calling, ended, Handler, handle_connection, sent_block, Move, send_leaves,
  send_enters, send_returns, send_raises, recv_leaves, recv_enters, recv_returns, recv_fails, Run,
  no_step, one_more,
}

-- The steps that a thread can still make when the event is set, and the blocks.
abbrev steps_left : Phase → ℕ
steps_left calling = 2
steps_left testing = 1
steps_left ended = 0

abbrev blocks_left : Phase → ℕ
blocks_left calling = 1
blocks_left testing = 0
blocks_left ended = 0

abbrev all_steps : Handler → ℕ
all_steps h = steps_left h.send_phase + steps_left h.recv_phase

abbrev all_blocks : Handler → ℕ
all_blocks h = length h.blocks + blocks_left h.send_phase

-- A step behind the event.
Move-ends :
    {h k : Handler}
    → Move h k
    → h.is_shutdown ≡ true
    → (k.is_shutdown ≡ true) × (suc (all_steps k) ≤ all_steps h) × (all_blocks k ≤ all_blocks h)
unfolding sent_block
Move-ends (send_leaves {h} e p) s =
    (s, omega (arith, ap steps_left p), omega (arith, ap blocks_left p))
Move-ends (send_enters {h} e p) s = absurd (ground (arith, e, s))
Move-ends (send_returns {h} p) s = (
  s,
  omega (arith, ap steps_left p),
  omega (arith, ap blocks_left p, length-append h.blocks (generate_data h.size ∷ [])),
)
Move-ends (send_raises {h} p) s =
    (refl, omega (arith, ap steps_left p), omega (arith, ap blocks_left p))
Move-ends (recv_leaves {h} e p) s = (s, omega (arith, ap steps_left p), omega arith)
Move-ends (recv_enters {h} e p) s = absurd (ground (arith, e, s))
Move-ends (recv_returns {h} p) s = (s, omega (arith, ap steps_left p), omega arith)
Move-ends (recv_fails {h} p) s = (refl, omega (arith, ap steps_left p), omega arith)

Run-ends :
    {n : ℕ} {h k : Handler}
    → Run n h k
    → h.is_shutdown ≡ true
    → (k.is_shutdown ≡ true) × (n + all_steps k ≤ all_steps h) × (all_blocks k ≤ all_blocks h)
Run-ends (no_step {h}) s = (s, omega arith, omega arith)
Run-ends (one_more {n} {g} {h} {k} step rest) s =
    let (still, fewer, blocks) = Move-ends step s in
    let (set, steps, more) = Run-ends rest still in
    (set, omega (arith, fewer, steps), omega (arith, blocks, more))

-- Both threads have ended: `handle_connection` returns.
abbrev pub Returns : Handler → Type 0
Returns h = (h.send_phase ≡ ended) × (h.recv_phase ≡ ended)

Phase-cases : (p : Phase) → (p ≡ testing) ⊎ ((p ≡ calling) ⊎ (p ≡ ended))
Phase-cases testing = inl refl
Phase-cases calling = inr (inl refl)
Phase-cases ended = inr (inr refl)

goes_on : (h : Handler) → h.is_shutdown ≡ true → Returns h ⊎ ((k : Handler) × Move h k)
goes_on h s = elim (Phase-cases h.send_phase) [
  | inl p ↦ inr (_, send_leaves s p)
  | inr (inl p) ↦ inr (_, send_raises p)
  | inr (inr p) ↦ elim (Phase-cases h.recv_phase) [
    | inl q ↦ inr (_, recv_leaves s q)
    | inr (inl q) ↦ inr (_, recv_fails q)
    | inr (inr q) ↦ inl (p, q)
  ]
]

steps_left_le : (p : Phase) → (steps_left p ≤ 2) × (blocks_left p ≤ 1)
steps_left_le testing = (omega arith, omega arith)
steps_left_le calling = (omega arith, omega arith)
steps_left_le ended = (omega arith, omega arith)

-- Once the event is set, in whatever order the threads go on, there are at most four steps, and
-- at most one more block is sent; a state that has no step is one where both threads have ended.
pub handle_connection-ends :
    {n : ℕ} {h k : Handler}
    → Run n h k
    → h.is_shutdown ≡ true
    → (n ≤ 4)
      × (length k.blocks ≤ length h.blocks + 1)
      × (Returns k ⊎ ((next : Handler) × Move k next))
handle_connection-ends {n} {h} {k} run s =
    let (set, steps, blocks) = Run-ends run s in
    let (send_steps, send_blocks) = steps_left_le h.send_phase in
    let (recv_steps, _) = steps_left_le h.recv_phase in
    (
      omega (arith, steps, send_steps, recv_steps),
      omega (arith, blocks, send_blocks),
      goes_on k set,
    )

-- The blocks of `m` sends are those of `sender` and one more.
sender_from-append :
    (m j : ℕ)
    → (sender_from (size_of j) (replicate (suc m) sent)).0
      ≡ (sender_from (size_of j) (replicate m sent)).0 ++ (generate_data (size_of (j + m)) ∷ [])
unfolding sender_from
sender_from-append zero j = ap (λ i. generate_data (size_of i) ∷ []) (omega arith)
sender_from-append (suc m) j =
    let e = next_size-size_of j in
    ap (◌∷◌ (generate_data (size_of j))) (
      ap (λ n. (sender_from n (replicate (suc m) sent)).0) e
      ∙ sender_from-append m (j + 1)
      ∙ ap₂ (λ n i. (sender_from n (replicate m sent)).0 ++ (generate_data (size_of i) ∷ []))
          (sym e) (omega arith))

-- A thread that has ended leaves the event set, and the blocks are those that `sender` alone sends.
abbrev pub IsOrderly : Handler → Type 0
IsOrderly h =
    ((h.send_phase ≢ ended) ⊎ (h.is_shutdown ≡ true))
    × ((h.recv_phase ≢ ended) ⊎ (h.is_shutdown ≡ true))
    × ((m : ℕ) × (h.size ≡ size_of m) × (h.blocks ≡ (sender (replicate m sent)).0))

sender-append :
    (m : ℕ)
    → (sender (replicate (suc m) sent)).0
      ≡ (sender (replicate m sent)).0 ++ (generate_data (size_of m) ∷ [])
unfolding sender initial_size
sender-append m =
    sender_from-append m 0
    ∙ ap (λ i. (sender_from (size_of 0) (replicate m sent)).0 ++ (generate_data (size_of i) ∷ []))
        (omega arith)

sent_block-blocks :
    (h : Handler)
    → (m : ℕ) × (h.size ≡ size_of m) × (h.blocks ≡ (sender (replicate m sent)).0)
    → (m : ℕ) × ((sent_block h).size ≡ size_of m)
      × ((sent_block h).blocks ≡ (sender (replicate m sent)).0)
unfolding sent_block
sent_block-blocks h (m, size, blocks) = (
  suc m,
  ap next_size size ∙ next_size-size_of m ∙ ap size_of (omega arith),
  ap₂ (λ bs n. bs ++ (generate_data n ∷ [])) blocks size ∙ sym (sender-append m),
)

Move-IsOrderly : {h k : Handler} → Move h k → IsOrderly h → IsOrderly k
Move-IsOrderly (send_leaves e p) (send, recv, sizes) = (inr e, recv, sizes)
Move-IsOrderly (send_enters e p) (send, recv, sizes) =
    (inl (λ q. omega (arith, ap steps_left q)), recv, sizes)
Move-IsOrderly (send_returns {h} p) (send, recv, sizes) =
    unfold sent_block in
    (inl (λ q. omega (arith, ap steps_left q)), recv, sent_block-blocks h sizes)
Move-IsOrderly (send_raises p) (send, recv, sizes) = (inr refl, inr refl, sizes)
Move-IsOrderly (recv_leaves e p) (send, recv, sizes) = (send, inr e, sizes)
Move-IsOrderly (recv_enters e p) (send, recv, sizes) =
    (send, inl (λ q. omega (arith, ap steps_left q)), sizes)
Move-IsOrderly (recv_returns p) (send, recv, sizes) =
    (send, inl (λ q. omega (arith, ap steps_left q)), sizes)
Move-IsOrderly (recv_fails p) (send, recv, sizes) = (inr refl, inr refl, sizes)

Run-IsOrderly : {n : ℕ} {h k : Handler} → Run n h k → IsOrderly h → IsOrderly k
Run-IsOrderly no_step o = o
Run-IsOrderly (one_more step rest) o = Run-IsOrderly rest (Move-IsOrderly step o)

-- In every state that the two threads reach from the start of a connection, in whatever order, a
-- thread that has ended leaves the event set, and the blocks sent are those of as many successful
-- rounds of `sender`.
pub handle_connection-IsOrderly : {n : ℕ} {h : Handler} → Run n handle_connection h → IsOrderly h
unfolding handle_connection sender sender_from
handle_connection-IsOrderly run = Run-IsOrderly run (
  inl (λ q. omega (arith, ap steps_left q)),
  inl (λ q. omega (arith, ap steps_left q)),
  (0, refl, refl),
)
