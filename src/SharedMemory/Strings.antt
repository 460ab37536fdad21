-- ===== src/SharedMemory/Strings.antt =====
-- OLD/open_shared_win_mem.py: the texts for the numbers of a memory region and of a section.
use public_trash.Base.{ℕ, ◌==◌, if◌then◌else◌, bit_and, List, [], ◌∷◌, ◌++◌}
use public_trash.Base.Hexadecimal.{upper_hex}
use public_trash.Base.Texts.{Text, codes, join_with}

abbrev pub unknown : ℕ → Text
unknown n = codes "Unknown (0x" ++ (upper_hex n ++ codes ")")

unfoldable pub get_memory_state_string : ℕ → Text
unfolding upper_hex
get_memory_state_string state =
    if state == 0x1000
    then codes "MEM_COMMIT"
    else if state == 0x2000
    then codes "MEM_RESERVE"
    else if state == 0x10000
    then codes "MEM_FREE"
    else unknown state

unfoldable pub get_memory_type_string : ℕ → Text
unfolding upper_hex
get_memory_type_string type_val =
    if type_val == 0x20000
    then codes "MEM_PRIVATE"
    else if type_val == 0x40000
    then codes "MEM_MAPPED"
    else if type_val == 0x1000000
    then codes "MEM_IMAGE"
    else unknown type_val

-- A row of `if value & flag: result.append(name)`.
unfoldable pub flag_names : ℕ → List (ℕ × Text) → List Text
flag_names value [] = []
flag_names value ((flag, name) ∷ flags) =
    let rest = flag_names value flags in if bit_and value flag == 0 then rest else name ∷ rest

abbrev pub joined_or : Text → List Text → Text
joined_or other [] = other
joined_or other (name ∷ names) = join_with (codes " | ") (name ∷ names)

abbrev pub protections : List (ℕ × Text)
protections =
    (0x01, codes "PAGE_NOACCESS")
    ∷ (0x02, codes "PAGE_READONLY")
    ∷ (0x04, codes "PAGE_READWRITE")
    ∷ (0x08, codes "PAGE_WRITECOPY")
    ∷ (0x10, codes "PAGE_EXECUTE")
    ∷ (0x20, codes "PAGE_EXECUTE_READ")
    ∷ (0x40, codes "PAGE_EXECUTE_READWRITE")
    ∷ (0x80, codes "PAGE_EXECUTE_WRITECOPY")
    ∷ (0x100, codes "PAGE_GUARD")
    ∷ (0x200, codes "PAGE_NOCACHE")
    ∷ (0x400, codes "PAGE_WRITECOMBINE")
    ∷ []

unfoldable pub get_memory_protection_string : ℕ → Text
unfolding flag_names upper_hex
get_memory_protection_string protect = joined_or (unknown protect) (flag_names protect protections)

abbrev pub allocations : List (ℕ × Text)
allocations =
    (0x00000001, codes "SEC_COMMIT")
    ∷ (0x00800000, codes "SEC_RESERVE")
    ∷ (0x08000000, codes "SEC_NOCACHE")
    ∷ (0x10000000, codes "SEC_IMAGE")
    ∷ (0x01000000, codes "SEC_LARGE_PAGES")
    ∷ (0x00400000, codes "SEC_BASED")
    ∷ []

unfoldable pub get_allocation_attributes_string : ℕ → Text
unfolding flag_names upper_hex
get_allocation_attributes_string attrs =
    joined_or (codes "0x" ++ upper_hex attrs) (flag_names attrs allocations)
