-- ===== src/SharedMemory/Session.antt =====
-- OLD/open_shared_win_mem.py: `main`, from the call that opens the memory to the end.
use public_trash.Base.{
  ◌≡◌, ◌⊎◌, Bool, true, false, ◌==◌, if◌then◌else◌, ltb, ◌++◌, length, take, drop, Option, none,
  some, Exception, value_error,
}
use public_trash.Base.Words.{Bytes}
use public_trash.SharedMemory.{Windows, Held, Opened, close_handle, unmap_view, open_shared_memory}

-- The arguments of the command line that the code behind the parser reads; the message is encoded.
pub record Args : Type 0 where
  pub read_only : Bool
  pub write_data : Bool
  pub message : Bytes

-- Where the interrupt comes: the `try` block waits for it in an endless loop, unless it came before.
pub data Moment : Type 0 where
  before_read before_write waiting : Moment

-- How the program ends: the memory was not opened, the interrupt was caught, or an exception.
pub data Ending : Type 0 where
  not_opened interrupted : Ending
  failed_with : Exception → Ending

-- `shared_mem.write` at the front: `ValueError` where the bytes do not fit.
unfoldable pub write_front : Bytes → Bytes → Ending × Bytes
write_front memory message =
    if ltb (length memory) (length message)
    then (failed_with value_error, memory)
    else (interrupted, message ++ drop (length message) memory)

-- The part of the `try` block behind the read: with `--write-data`, and with `--read-only`.
unfoldable pub write_step : Bool → Bool → Bytes → Bytes → Ending × Bytes
unfolding write_front
write_step false read_only message memory = (interrupted, memory)
write_step true true message memory = (interrupted, memory)
write_step true false message memory = write_front memory message

-- The `try` block with its handler: how it ends, the bytes that it printed, and the memory.
unfoldable pub use_memory : Args → Moment → Bytes → Ending × Option Bytes × Bytes
unfolding write_step
use_memory args before_read memory = (interrupted, none, memory)
use_memory args before_write memory = (interrupted, some (take 100 memory), memory)
use_memory args waiting memory =
    let (ending, left) = write_step args.write_data args.read_only args.message memory in
    (ending, some (take 100 memory), left)

-- `finally`.
abbrev pub give_back : Opened → Held → Held
give_back o s =
    let unmapped = if o.view == 0 then s else unmap_view o.view s in
    if o.handle == 0 then unmapped else close_handle o.handle unmapped

pub record Session : Type 0 where
  pub ending : Ending
  pub printed : Option Bytes
  pub memory : Bytes
  pub held : Held

unfoldable pub session : Args → Moment → Bytes → Option Opened × Held → Session
unfolding use_memory
session args moment memory (none, s) = record {
  ending = not_opened;
  printed = none;
  memory = memory;
  held = s;
}
session args moment memory (some o, s) =
    let (ending, printed, left) = use_memory args moment memory in
    record { ending = ending; printed = printed; memory = left; held = give_back o s }

unfoldable pub main : Windows → Args → Moment → Bytes → Held → Session
unfolding session
main w args moment memory s = session args moment memory (open_shared_memory w args.read_only s)

-- The memory as it was, or with the message at its front, where writing was asked for and allowed.
abbrev pub IsWritten : Bool → Bool → Bytes → Bytes → Bytes → Type 0
IsWritten write_data read_only message memory left =
    (left ≡ memory)
    ⊎ ((write_data ≡ true)
        × (read_only ≡ false)
        × (length left ≡ length memory)
        × (left ≡ message ++ drop (length message) memory))
