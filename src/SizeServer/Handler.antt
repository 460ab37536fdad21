-- ===== src/SizeServer/Handler.antt =====
-- OLD/cs_tester.py: `handle_connection`, the two threads of a connection and the event they share,
-- as steps that may interleave in any order. A step is a test of the event, or a call of `sendall`
-- or `recv` that returns or raises, with what the thread does behind it up to the next of these.
pub mod Ends
use public_trash.Base.{ℕ, zero, suc, ◌≡◌, Bool, true, false, List, [], ◌∷◌, ◌++◌}
use public_trash.Base.Words.{Bytes}
use public_trash.SizeServer.{initial_size, next_size, generate_data}

-- Where a thread stands: in front of the test of its loop, in its call, or behind its loop.
pub data Phase : Type 0 where
  testing calling ended : Phase

-- The event, the two threads, the size of the next block, and the blocks sent.
pub record Handler : Type 0 where
  pub is_shutdown : Bool
  pub send_phase : Phase
  pub recv_phase : Phase
  pub size : ℕ
  pub blocks : List Bytes

unfoldable pub handle_connection : Handler
unfolding initial_size
handle_connection = record {
  is_shutdown = false;
  send_phase = testing;
  recv_phase = testing;
  size = initial_size;
  blocks = [];
}

unfoldable pub sent_block : Handler → Handler
unfolding next_size generate_data
sent_block h = record h {
  send_phase = testing;
  size = next_size h.size;
  blocks = h.blocks ++ (generate_data h.size ∷ []);
}

pub data Move : Handler → Handler → Type 0 where
  send_leaves :
      {h : Handler}
      → h.is_shutdown ≡ true
      → h.send_phase ≡ testing
      → Move h (record h { send_phase = ended })
  send_enters :
      {h : Handler}
      → h.is_shutdown ≡ false
      → h.send_phase ≡ testing
      → Move h (record h { send_phase = calling })
  send_returns : {h : Handler} → h.send_phase ≡ calling → Move h (sent_block h)
  send_raises :
      {h : Handler}
      → h.send_phase ≡ calling
      → Move h (record h { is_shutdown = true; send_phase = ended })
  recv_leaves :
      {h : Handler}
      → h.is_shutdown ≡ true
      → h.recv_phase ≡ testing
      → Move h (record h { recv_phase = ended })
  recv_enters :
      {h : Handler}
      → h.is_shutdown ≡ false
      → h.recv_phase ≡ testing
      → Move h (record h { recv_phase = calling })
  -- `recv` returns bytes.
  recv_returns : {h : Handler} → h.recv_phase ≡ calling → Move h (record h { recv_phase = testing })
  -- `recv` returns nothing, or raises.
  recv_fails :
      {h : Handler}
      → h.recv_phase ≡ calling
      → Move h (record h { is_shutdown = true; recv_phase = ended })

-- A run of so many steps.
pub data Run : ℕ → Handler → Handler → Type 0 where
  no_step : {h : Handler} → Run 0 h h
  one_more : {n : ℕ} {g h k : Handler} → Move g h → Run n h k → Run (suc n) g k
