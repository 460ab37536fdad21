-- ===== src/CertInspect/Load/Reports.antt =====
-- The message that nothing was recognised stands for a file of which nothing is shown.
use public_trash.Base.{ℕ, suc, ◌≤◌, ◌≡◌, ◌⊎◌, true, false, List, [], ◌∷◌}
use public_trash.CertInspect.Load.{Store, Printed, shown, no_recognizable, Loaded}

-- How many objects are shown, and how often the message that there are none.
abbrev pub objects : List Printed → ℕ
objects [] = 0
objects (shown _ ∷ out) = suc (objects out)
objects (_ ∷ out) = objects out

abbrev pub refusals : List Printed → ℕ
refusals [] = 0
refusals (no_recognizable ∷ out) = suc (refusals out)
refusals (_ ∷ out) = refusals out

-- `loaded_any` tells whether an object was printed.
record IsHonest (l : Loaded) : Type 0 where
  silent : refusals l.0 ≡ 0
  agrees : ((l.1 ≡ true) × (1 ≤ objects l.0)) ⊎ ((l.1 ≡ false) × (objects l.0 ≡ 0))

-- A PKCS#12 store that holds nothing.
abbrev pub empty_store : Store
empty_store = record { key = false; cert = false; additional = 0 }

abbrev pub IsReport : List Printed → Type 0
IsReport out = ((1 ≤ objects out) × (refusals out ≡ 0)) ⊎ ((objects out ≡ 0) × (refusals out ≡ 1))
