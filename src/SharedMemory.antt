-- ===== src/SharedMemory.antt =====
-- OLD/open_shared_win_mem.py: `open_shared_memory` with `get_section_size` and `get_memory_info`.
-- The calls of the Windows API and of `mmap` are parameters: what they return is given, and what
-- they hold open is the state. What is printed, with `verbose` or without, is left out.
pub mod Resources
pub mod Strings
pub mod Session
use public_trash.Base.{
  ℕ, zero, suc, ◌+◌, Bool, true, false, ◌==◌, if◌then◌else◌, List, [], ◌∷◌, Option, none, some,
}

abbrev pub file_map_read : ℕ
file_map_read = 0x0004

abbrev pub file_map_all_access : ℕ
file_map_all_access = 0x000F001F

-- What the calls return; handles and views are numbers, 0 for a failure. `map_view` is told the
-- number of views made before, the access of the handle, and the arguments; `mmap` whether a map of
-- this size is made or raises.
pub record Windows : Type 0 where
  pub open_file_mapping : (access : ℕ) → ℕ
  pub nt_query_section : (handle : ℕ) → ℕ × ℕ
  pub map_view : (made handle_access handle access size : ℕ) → ℕ
  pub virtual_query : (view : ℕ) → ℕ × ℕ
  pub mmap : (size : ℕ) (read_only : Bool) → Bool

-- The handles and the views that are open, and the number of views made.
pub record Held : Type 0 where
  pub handles : List ℕ
  pub views : List ℕ
  pub made : ℕ

abbrev pub remove : ℕ → List ℕ → List ℕ
remove x [] = []
remove x (y ∷ ys) = if y == x then ys else y ∷ remove x ys

abbrev pub close_handle : ℕ → Held → Held
close_handle h s = record s { handles = remove h s.handles }

abbrev pub unmap_view : ℕ → Held → Held
unmap_view v s = record s { views = remove v s.views }

-- A view that is not 0 is held.
abbrev pub hold_view : ℕ → Held → Held
hold_view v s = record s { views = if v == 0 then s.views else v ∷ s.views; made = s.made + 1 }

-- `status != 0` gives `None`, after a second call too, whose result is not used.
unfoldable pub get_section_size : Windows → ℕ → Option ℕ
get_section_size w handle =
    if (w.nt_query_section handle).0 == 0 then some (w.nt_query_section handle).1 else none

-- The region size of the dictionary.
unfoldable pub get_memory_info : Windows → ℕ → Option ℕ
get_memory_info w view =
    if (w.virtual_query view).0 == 0 then none else some (w.virtual_query view).1

-- The handle, the view and the size of the memory map; `none` for `(None, None, None)`.
pub record Opened : Type 0 where
  pub handle : ℕ
  pub view : ℕ
  pub size : ℕ
  pub read_only : Bool

-- A view of this size with the size, for the code behind.
abbrev pub View : Type 0
View = ℕ × ℕ × Held

abbrev pub access_mode : Bool → ℕ
access_mode read_only = if read_only then file_map_read else file_map_all_access

abbrev pub map_actual : Windows → Bool → ℕ → ℕ → Held → View
map_actual w read_only handle actual_size s =
    let v = w.map_view s.made (access_mode read_only) handle (access_mode read_only) actual_size in
    (v, actual_size, hold_view v s)

-- The code behind the first view of 4096 bytes: it is mapped again with the size of its region, or
-- kept.
unfoldable pub remap : Windows → Bool → ℕ → ℕ → Option ℕ → Held → View
remap w read_only handle view none s = (view, 4096, s)
remap w read_only handle view (some region_size) s =
    map_actual w read_only handle region_size (unmap_view view s)

-- The end: the memory map, or everything is given back.
unfoldable pub finish : Windows → Bool → ℕ → View → Option Opened × Held
finish w read_only handle (view, actual_size, s) =
    if view == 0
    then (none, close_handle handle s)
    else if w.mmap actual_size read_only
    then (
      some (record { handle = handle; view = view; size = actual_size; read_only = read_only }),
      s,
    )
    else (none, close_handle handle (unmap_view view s))

-- The branch with no size from `get_section_size`.
unfoldable pub fallback : Windows → Bool → ℕ → Held → Option Opened × Held
unfolding finish remap get_memory_info
fallback w read_only handle s =
    let v = w.map_view s.made (access_mode read_only) handle file_map_all_access 4096 in
    let more =
      finish w read_only handle
        (remap w read_only handle v (get_memory_info w v) (hold_view v s)) in
    if v == 0 then (none, close_handle handle (hold_view v s)) else more

abbrev pub with_size : Windows → Bool → ℕ → Held → Option ℕ → Option Opened × Held
with_size w read_only handle s none = fallback w read_only handle s
with_size w read_only handle s (some size) =
    finish w read_only handle (map_actual w read_only handle size s)

unfoldable pub open_shared_memory : Windows → Bool → Held → Option Opened × Held
unfolding fallback get_section_size
open_shared_memory w read_only s =
    let handle = w.open_file_mapping (access_mode read_only) in
    let opened =
      with_size w read_only handle (record s { handles = handle ∷ s.handles })
        (get_section_size w handle) in
    if handle == 0 then (none, s) else opened
