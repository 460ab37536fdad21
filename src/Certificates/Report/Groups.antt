-- ===== src/Certificates/Report/Groups.antt =====
-- Which certificates the report shows, in which order, and what its numbers count.
use mathlib.Core.List.{Perm}
use mathlib.Core.List.Perm
use public_trash.Base.{ℕ, ◌+◌, ◌≤◌, List, [], ◌∷◌, length}
use public_trash.Certificates.{CertInfo, Parser, File, gather_cert_infos, merge_by_fingerprint}

-- The places of all certificates.
abbrev pub places : List CertInfo → ℕ
places [] = 0
places (c ∷ cs) = length c.locations + places cs

HasPlace : CertInfo → Type 0
HasPlace c = 1 ≤ length c.locations

-- The merged certificates that `main` reports on.
abbrev pub merged_of : Parser → List File → List CertInfo
merged_of parse files = merge_by_fingerprint (gather_cert_infos parse files).0
