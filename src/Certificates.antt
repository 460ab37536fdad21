-- ===== src/Certificates.antt =====
-- OLD/check_certs.py: the certificates gathered, merged by fingerprint, and the exit status. The
-- candidates of each file and how a certificate is parsed are given. Objects are values, since what
-- is shared is not read again behind the merge.
pub mod Merge
pub mod Box
pub mod Load
pub mod Report
use public_trash.Base.{
  ℕ, zero, suc, ◌+◌, Bool, true, false, ◌==◌, if◌then◌else◌, ltb, List, [], ◌∷◌, ◌++◌, length,
  Option, none, some,
}
use public_trash.Base.Texts.{Text}
use public_trash.Base.Words.{Bytes}

pub record Location : Type 0 where
  pub path : Text
  pub index_in_file : ℕ

-- `CertInfo`: the fingerprint is the number whose 64 hex digits the text is; a time is a number.
pub record CertInfo : Type 0 where
  pub der_bytes : Bytes
  pub fingerprint_sha256 : ℕ
  pub subject_cn : Option Text
  pub subject_org : Option Text
  pub subject_ou : Option Text
  pub issuer_cn : Option Text
  pub serial_hex : Text
  pub not_before : ℕ
  pub not_after : ℕ
  pub emails : List Text
  pub sans_dns : List Text
  pub locations : List Location

-- What the package makes of the bytes of a certificate, which `parse_cert_from_der` places.
abbrev pub Parser : Type 0
Parser = Bytes → Option CertInfo

abbrev place : Location → Option CertInfo → Option CertInfo
place loc none = none
place loc (some c) = some (record c { locations = loc ∷ [] })

unfoldable pub parse_cert_from_der : Parser → Bytes → Location → Option CertInfo
parse_cert_from_der parse der loc = place loc (parse der)

abbrev pub add : Option CertInfo → List CertInfo → List CertInfo
add none cs = cs
add (some c) cs = c ∷ cs

-- `for i, der in enumerate(ders, start=1)`.
unfoldable pub certs_of_file : Parser → Text → ℕ → List Bytes → List CertInfo
unfolding parse_cert_from_der
certs_of_file parse path i [] = []
certs_of_file parse path i (der ∷ ders) =
    add (parse_cert_from_der parse der (record { path = path; index_in_file = i }))
      (certs_of_file parse path (i + 1) ders)

-- A file with the candidates that are loaded from it.
abbrev pub File : Type 0
File = Text × List Bytes

-- `gather_cert_infos`: the certificates and the number of candidates of each file that has any.
unfoldable pub gather_cert_infos : Parser → List File → List CertInfo × List (Text × ℕ)
unfolding certs_of_file
gather_cert_infos parse [] = ([], [])
gather_cert_infos parse ((path, []) ∷ files) = gather_cert_infos parse files
gather_cert_infos parse ((path, der ∷ ders) ∷ files) =
    let rest = gather_cert_infos parse files in
    (certs_of_file parse path 1 (der ∷ ders) ++ rest.0, (path, length (der ∷ ders)) ∷ rest.1)

-- The dictionary as its values in the order of insertion: the key of each is its fingerprint.
unfoldable pub merge_one : List CertInfo → CertInfo → List CertInfo
merge_one [] c = c ∷ []
merge_one (d ∷ ds) c =
    let rest = merge_one ds c in
    if d.fingerprint_sha256 == c.fingerprint_sha256
    then record d { locations = d.locations ++ c.locations } ∷ ds
    else d ∷ rest

unfoldable pub merge_from : List CertInfo → List CertInfo → List CertInfo
unfolding merge_one
merge_from merged [] = merged
merge_from merged (c ∷ cs) = merge_from (merge_one merged c) cs

unfoldable pub merge_by_fingerprint : List CertInfo → List CertInfo
unfolding merge_from
merge_by_fingerprint certs = merge_from [] certs

unfoldable pub dupes : List CertInfo → List CertInfo
dupes [] = []
dupes (c ∷ cs) = let rest = dupes cs in if ltb 1 (length c.locations) then c ∷ rest else rest

abbrev pub status : List CertInfo → ℕ
status [] = 0
status (c ∷ cs) = 1

-- The exit status of `print_report`.
unfoldable pub print_report : List CertInfo → ℕ
unfolding dupes
print_report merged = status (dupes merged)

-- `main` for a folder that is there.
unfoldable pub exit_code : List CertInfo → ℕ
unfolding print_report merge_by_fingerprint
exit_code [] = 0
exit_code (c ∷ cs) = print_report (merge_by_fingerprint (c ∷ cs))
