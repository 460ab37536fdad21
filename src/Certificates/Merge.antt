-- ===== src/Certificates/Merge.antt =====
-- What the merge by fingerprint keeps, and when the program reports duplicates.
use public_trash.Base.{
  ℕ, ◌+◌, ◌≡◌, refl, ◌==◌, if◌then◌else◌, List, [], ◌∷◌, ◌++◌, length, All, All-append, Option,
  none, some,
}
use public_trash.Base.Words.{Bytes}
use public_trash.Base.Texts.{Text}
use public_trash.Certificates.{
  Location, CertInfo, Parser, File, place, add, parse_cert_from_der, certs_of_file,
  gather_cert_infos,
}

-- How many certificates have this fingerprint, and where they are found, in order.
abbrev pub times : ℕ → List CertInfo → ℕ
times k [] = 0
times k (c ∷ cs) = (if c.fingerprint_sha256 == k then 1 else 0) + times k cs

abbrev pub found_at : ℕ → List CertInfo → List Location
found_at k [] = []
found_at k (c ∷ cs) = (if c.fingerprint_sha256 == k then c.locations else []) ++ found_at k cs

-- Every certificate that is gathered has one location.
abbrev pub HasOnePlace : CertInfo → Type 0
HasOnePlace c = length c.locations ≡ 1

add-HasOnePlace :
    (loc : Location) (o : Option CertInfo) (cs : List CertInfo)
    → All HasOnePlace cs
    → All HasOnePlace (add (place loc o) cs)
add-HasOnePlace loc none cs h = h
add-HasOnePlace loc (some c) cs h = (refl, h)

certs_of_file-HasOnePlace :
    (parse : Parser) (path : Text) (i : ℕ) (ders : List Bytes)
    → All HasOnePlace (certs_of_file parse path i ders)
unfolding certs_of_file parse_cert_from_der
certs_of_file-HasOnePlace parse path i [] = tt
certs_of_file-HasOnePlace parse path i (der ∷ ders) =
    add-HasOnePlace (record { path = path; index_in_file = i }) (parse der)
      (certs_of_file parse path (i + 1) ders) (certs_of_file-HasOnePlace parse path (i + 1) ders)

pub gather_cert_infos-HasOnePlace :
    (parse : Parser) (files : List File) → All HasOnePlace (gather_cert_infos parse files).0
unfolding gather_cert_infos
gather_cert_infos-HasOnePlace parse [] = tt
gather_cert_infos-HasOnePlace parse ((path, []) ∷ files) = gather_cert_infos-HasOnePlace parse files
gather_cert_infos-HasOnePlace parse ((path, der ∷ ders) ∷ files) =
    All-append HasOnePlace (certs_of_file parse path 1 (der ∷ ders))
      (gather_cert_infos parse files).0 (certs_of_file-HasOnePlace parse path 1 (der ∷ ders))
      (gather_cert_infos-HasOnePlace parse files)
