-- ===== src/SharedMemory/Resources.antt =====
-- What `open_shared_memory` leaves open.
use public_trash.Base.{
  ℕ, ◌+◌, ◌≡◌, ◌≢◌, refl, sym, subst, Bool, true, false, Bool-cases, inl, inr, ◌==◌, if◌then◌else◌,
  List, ◌∷◌, Option, none, some, arith,
}
use public_trash.SharedMemory.{
  Windows, Held, Opened, remove, file_map_all_access, file_map_read, access_mode, remap, finish,
  fallback, with_size, get_section_size, get_memory_info, open_shared_memory,
}

-- What a call that started with `s` leaves: on success the handle and the view that are returned,
-- neither 0, on failure nothing.
pub data Leaves (read_only : Bool) (s : Held) : Option Opened × Held → Type 0 where
  opened :
      {made : ℕ} {o : Opened}
      → o.handle ≢ 0
      → o.view ≢ 0
      → o.read_only ≡ read_only
      → Leaves read_only s
          (some o, record { handles = o.handle ∷ s.handles; views = o.view ∷ s.views; made = made })
  failed :
      {made : ℕ}
      → Leaves read_only s (none, record { handles = s.handles; views = s.views; made = made })

pub remove_head : (x : ℕ) (xs : List ℕ) → remove x (x ∷ xs) ≡ xs
remove_head x xs = let same : (x == x) ≡ true = ground arith in rw same refl

-- The end with a view.
finish_mapped :
    (w : Windows) (read_only : Bool) (handle view size made : ℕ) (s : Held)
    → handle ≢ 0
    → (view == 0) ≡ false
    → Leaves read_only s (
        finish w read_only handle (
          view,
          size,
          record { handles = handle ∷ s.handles; views = view ∷ s.views; made = made },
        ))
unfolding finish
finish_mapped w read_only handle view size made s h good =
    elim (Bool-cases (w.mmap size read_only)) [
      | inl made_map ↦ rw (good, made_map) (opened h (ground (arith, good)) refl)
      | inr raised ↦
          rw (good, raised, remove_head handle s.handles, remove_head view s.views) failed
    ]

-- The end with a view that may have failed.
finish-Leaves :
    (w : Windows) (read_only : Bool) (handle view size made : ℕ) (s : Held)
    → handle ≢ 0
    → Leaves read_only s (
        finish w read_only handle (
          view,
          size,
          record {
            handles = handle ∷ s.handles;
            views = if view == 0 then s.views else view ∷ s.views;
            made = made;
          },
        ))
unfolding finish
finish-Leaves w read_only handle view size made s h = elim (Bool-cases (view == 0)) [
  | inl bad ↦ rw (bad, remove_head handle s.handles) failed
  | inr good ↦
      subst
        (λ b. Leaves read_only s (
          finish w read_only handle (
            view,
            size,
            record {
              handles = handle ∷ s.handles;
              views = if b then s.views else view ∷ s.views;
              made = made;
            },
          )))
        (sym good) (finish_mapped w read_only handle view size made s h good)
]

remap-Leaves :
    (w : Windows) (read_only : Bool) (handle view made : ℕ) (region : Option ℕ) (s : Held)
    → handle ≢ 0
    → (view == 0) ≡ false
    → Leaves read_only s (
        finish w read_only handle (
          remap w read_only handle view region
            record { handles = handle ∷ s.handles; views = view ∷ s.views; made = made }))
unfolding remap
remap-Leaves w read_only handle view made none s h good =
    finish_mapped w read_only handle view 4096 made s h good
remap-Leaves w read_only handle view made (some size) s h good = rw (remove_head view s.views) (
    finish-Leaves w read_only handle
      (w.map_view made (access_mode read_only) handle (access_mode read_only) size) size (made + 1)
      s h)

fallback-Leaves :
    (w : Windows) (read_only : Bool) (handle : ℕ) (s : Held)
    → handle ≢ 0
    → Leaves read_only s (fallback w read_only handle (record s { handles = handle ∷ s.handles }))
unfolding fallback
fallback-Leaves w read_only handle s h =
    let v = w.map_view s.made (access_mode read_only) handle file_map_all_access 4096 in
    elim (Bool-cases (v == 0)) [
      | inl bad ↦ rw (bad, remove_head handle s.handles) failed
      | inr good ↦
          rw good (remap-Leaves w read_only handle v (s.made + 1) (get_memory_info w v) s h good)
    ]

with_size-Leaves :
    (w : Windows) (read_only : Bool) (handle : ℕ) (s : Held) (size : Option ℕ)
    → handle ≢ 0
    → Leaves read_only s
        (with_size w read_only handle (record s { handles = handle ∷ s.handles }) size)
with_size-Leaves w read_only handle s none h = fallback-Leaves w read_only handle s h
with_size-Leaves w read_only handle s (some size) h =
    finish-Leaves w read_only handle
      (w.map_view s.made (access_mode read_only) handle (access_mode read_only) size) size
      (s.made + 1) s h

-- Whatever the calls of Windows return, a failure of `open_shared_memory` leaves open the handles
-- and views that were open before, and a success those and the handle and the view that are
-- returned, neither of which is 0.
pub open_shared_memory-Leaves :
    (w : Windows) (read_only : Bool) (s : Held)
    → Leaves read_only s (open_shared_memory w read_only s)
unfolding open_shared_memory
open_shared_memory-Leaves w read_only s =
    let handle = w.open_file_mapping (access_mode read_only) in
    elim (Bool-cases (handle == 0)) [
      | inl bad ↦ rw bad failed
      | inr good ↦
          rw good (
            with_size-Leaves w read_only handle s (get_section_size w handle)
              (ground (arith, good)))
    ]

-- Where `NtQuerySection` fails on every handle and no handle that was opened for reading gives a
-- view with full access, `open_shared_memory` fails in read-only mode.
open_shared_memory-read_only :
    (w : Windows) (s : Held)
    → ((handle : ℕ) → (w.nt_query_section handle).0 ≢ 0)
    → ((made handle size : ℕ) → w.map_view made file_map_read handle file_map_all_access size ≡ 0)
    → (open_shared_memory w true s).0 ≡ none
unfolding open_shared_memory fallback get_section_size
open_shared_memory-read_only w s query denied =
    let handle = w.open_file_mapping file_map_read in
    let failing : ((w.nt_query_section handle).0 == 0) ≡ false = ground (arith, query handle) in
    elim (Bool-cases (handle == 0)) [
      | inl bad ↦ rw bad refl
      | inr good ↦ rw (good, failing, denied s.made handle 4096) refl
    ]
