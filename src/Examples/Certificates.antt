-- ===== src/Examples/Certificates.antt =====
-- Three files, two of which hold the same certificate.
use public_trash.Base.{
  ℕ, ◌≡◌, refl, List, [], ◌∷◌, ◌++◌, none, some, Bool, true, ltb, ◌&&◌, if◌then◌else◌, ok, raise,
  value_error, arith,
}
use public_trash.Base.Texts.{Text, codes, starts_with, strip, lstrip, rstrip}
use public_trash.Certificates.{CertInfo, Parser, File}
use public_trash.Certificates.Load.{
  Decoder, Found, begin_mark, end_mark, behind_space, match_body, pem_blocks, load_files,
}
use public_trash.Certificates.Load.Blocks.{Written, written, pem_blocks-written}
use public_trash.Certificates.Load.Errors.{IsRaised, load_files-value_error}

abbrev info : ℕ → CertInfo
info fingerprint = record {
  der_bytes = [];
  fingerprint_sha256 = fingerprint;
  subject_cn = none;
  subject_org = none;
  subject_ou = none;
  issuer_cn = none;
  serial_hex = [];
  not_before = 0;
  not_after = 0;
  emails = [];
  sans_dns = [];
  locations = [];
}

-- The first byte stands for the certificate.
abbrev parse_first : Parser
parse_first [] = none
parse_first (b ∷ bs) = some (info b)

abbrev three_files : List File
three_files = (1 ∷ [], (7 ∷ []) ∷ []) ∷ (2 ∷ [], (8 ∷ []) ∷ (7 ∷ []) ∷ []) ∷ (3 ∷ [], [] ∷ []) ∷ []

-- Two blocks, with text in front.
abbrev two_blocks : List Written
two_blocks =
    record { before = codes "Subject: x\n"; first_part = codes "MIIB\nAb"; last = b'=' }
    ∷ record { before = codes "\n"; first_part = []; last = b'Q' }
    ∷ []

pem_blocks-written_example :
    pem_blocks (written two_blocks (codes "\n")) ≡ codes "MIIB\nAb=" ∷ codes "Q" ∷ []
pem_blocks-written_example =
    pem_blocks-written two_blocks (codes "\n") (ground arith) (ground arith)

-- A decoder that gives back ASCII texts.
abbrev all_ascii : Text → Bool
all_ascii [] = true
all_ascii (c ∷ cs) = ltb c 128 && all_ascii cs

abbrev decode_letters : Decoder
decode_letters s = if all_ascii s then ok s else raise value_error

abbrev block_file : Text → Found
block_file inside = record {
  path = codes "x.pem";
  text = begin_mark ++ b'\n' ∷ (inside ++ b'\n' ∷ end_mark);
  bytes = none;
}

load_files-value_error_example : IsRaised (
    load_files decode_letters parse_first
      (block_file (codes "Q") ∷ block_file (0xe9 ∷ b'Q' ∷ []) ∷ block_file (codes "Q") ∷ []))
load_files-value_error_example =
    load_files-value_error decode_letters parse_first (block_file (codes "Q") ∷ [])
      (block_file (codes "Q") ∷ []) (block_file (0xe9 ∷ b'Q' ∷ [])) [] [] (0xe9 ∷ b'Q' ∷ [])
      (unfold pem_blocks match_body behind_space starts_with in refl)
      (unfold strip lstrip rstrip in refl)
