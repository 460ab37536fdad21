-- ===== src/Certificates/Report.antt =====
-- OLD/check_certs.py: the report, as the texts that are printed, and `main` behind the parser. The
-- order of paths and the text of a time are given.
pub mod Groups
use public_trash.Base.{
  ℕ, zero, suc, ◌+◌, Bool, true, false, ◌==◌, if◌then◌else◌, ltb, List, [], ◌∷◌, ◌++◌, map, length,
  Option, none, some,
}
use public_trash.Base.Texts.{Text, codes, join_with}
use public_trash.Base.Sorts.{StrictOrder, by_key, by_pair, by_number, by_text, reversed, sort_by}
use public_trash.Base.Decimal.{decimal}
use public_trash.Base.Hexadecimal.{hex_digits}
use public_trash.Certificates.{
  Location, CertInfo, Parser, File, gather_cert_infos, merge_by_fingerprint, dupes, status,
}
use public_trash.Certificates.Box.{draw_box}

-- A part where there is a text that is not empty.
abbrev pub part : Text → Option Text → List Text
part front none = []
part front (some []) = []
part front (some (c ∷ cs)) = (front ++ c ∷ cs) ∷ []

abbrev pub part_list : Text → List Text → List Text
part_list front [] = []
part_list front (t ∷ ts) = (front ++ join_with (codes ", ") (t ∷ ts)) ∷ []

abbrev pub joined_or : Text → Text → List Text → Text
joined_or other sep [] = other
joined_or other sep (t ∷ ts) = join_with sep (t ∷ ts)

abbrev pub with_additional : Text → List Text → Text
with_additional subject_line [] = subject_line
with_additional subject_line (t ∷ ts) =
    subject_line ++ (codes " | " ++ join_with (codes " | ") (t ∷ ts))

unfoldable pub human_identity_line : CertInfo → Text
human_identity_line c =
    with_additional
      (joined_or (codes "(no subject identity)") (codes ", ") (
        part (codes "CN=") c.subject_cn
        ++ (part (codes "O=") c.subject_org ++ part (codes "OU=") c.subject_ou)))
      (part_list (codes "Emails=") c.emails ++ part_list (codes "DNS=") c.sans_dns)

-- What the report takes from Python: the text of a time, the time now, and the order of paths.
pub record Surroundings : Type 0 where
  pub isoformat : ℕ → Text
  pub now : ℕ
  pub by_path : StrictOrder Text

-- `x or other`.
abbrev pub or_else : Option Text → Text → Text
or_else none other = other
or_else (some []) other = other
or_else (some (c ∷ cs)) other = c ∷ cs

unfoldable pub validity_lines : Surroundings → CertInfo → List Text
validity_lines about c =
    let line =
      codes "Validity: "
      ++ (about.isoformat c.not_before ++ (codes " to " ++ about.isoformat c.not_after)) in
    if ltb c.not_after about.now
    then (line ++ codes " *** EXPIRED ***")
      ∷ (0x26a0 ∷ 0xfe0f ∷ codes "  WARNING: This certificate has EXPIRED!")
      ∷ []
    else line ∷ []

abbrev pub location_line : Location → Text
location_line loc =
    codes "  - " ++ (loc.path ++ (codes " [index " ++ (decimal loc.index_in_file ++ codes "]")))

unfoldable pub render_group_box : Surroundings → CertInfo → Text
unfolding human_identity_line validity_lines
render_group_box about c =
    draw_box
      ((codes "SHA256: " ++ hex_digits 64 c.fingerprint_sha256)
        ∷ (codes "Serial: " ++ c.serial_hex)
        ∷ (validity_lines about c
            ++ (codes "Issuer CN: " ++ or_else c.issuer_cn (codes "(unknown)"))
              ∷ (codes "Subject: " ++ human_identity_line c)
              ∷ codes "Found in:"
              ∷ map location_line c.locations))
      100

-- `key=lambda x: (len(x.locations), x.subject_cn or "", x.serial_hex), reverse=True`.
abbrev pub largest_first : StrictOrder CertInfo
largest_first = reversed (
    by_key (λ c. (length c.locations, (or_else c.subject_cn [], c.serial_hex)))
      (by_pair by_number (by_pair by_text by_text)))

-- `key=lambda x: x.subject_cn or x.serial_hex`.
abbrev pub by_name : StrictOrder CertInfo
by_name = by_key (λ c. or_else c.subject_cn c.serial_hex) by_text

unfoldable pub uniques : List CertInfo → List CertInfo
uniques [] = []
uniques (c ∷ cs) = let rest = uniques cs in if length c.locations == 1 then c ∷ rest else rest

-- The loop that prints boxes, each with an empty line behind it.
unfoldable pub print_boxes : List Text → List Text
print_boxes [] = []
print_boxes (box ∷ boxes) = box ∷ [] ∷ print_boxes boxes

abbrev pub print_dupes : Surroundings → List CertInfo → List Text
unfolding print_boxes
print_dupes about [] = codes "\nNo duplicates found.\n" ∷ []
print_dupes about (c ∷ cs) =
    codes "\n=== Duplicate certificates (by SHA-256) ===\n"
    ∷ print_boxes (map (render_group_box about) (sort_by largest_first (c ∷ cs)))

abbrev pub print_uniques : Surroundings → List CertInfo → List Text
print_uniques about [] = []
print_uniques about (c ∷ cs) =
    codes "=== Unique certificates ===\n"
    ∷ print_boxes (map (render_group_box about) (sort_by by_name (c ∷ cs)))

unfoldable pub multi_files : List (Text × ℕ) → List (Text × ℕ)
multi_files [] = []
multi_files ((path, n) ∷ files) =
    let rest = multi_files files in if ltb 1 n then (path, n) ∷ rest else rest

abbrev pub file_box : Text × ℕ → Text
file_box (path, n) = draw_box (path ∷ (codes "Certificates in file: " ++ decimal n) ∷ []) 100

abbrev pub print_multi_files : Surroundings → List (Text × ℕ) → List Text
print_multi_files about [] = []
print_multi_files about (file ∷ files) =
    codes "=== Files containing multiple certificates ===\n"
    ∷ print_boxes (map file_box (sort_by (by_pair about.by_path by_number) (file ∷ files)))

unfoldable pub total_certs : List (Text × ℕ) → ℕ
total_certs [] = 0
total_certs ((path, n) ∷ files) = n + total_certs files

abbrev pub summary : List CertInfo → List (Text × ℕ) → List Text
summary merged per_file_count =
    codes "=== Summary ==="
    ∷ (codes "Files scanned: " ++ decimal (length per_file_count))
    ∷ (codes "Certificates parsed: " ++ decimal (total_certs per_file_count))
    ∷ (codes "Unique fingerprints: " ++ decimal (length merged))
    ∷ (codes "Duplicate groups: " ++ decimal (length (dupes merged)))
    ∷ []

-- What `print_report` prints; `show_unique` and `list_files_with_multiple` as in the source.
unfoldable pub report_lines :
    Surroundings → Bool → Bool → List CertInfo → List (Text × ℕ) → List Text
unfolding render_group_box uniques multi_files total_certs print_boxes
report_lines about show_unique list_files_with_multiple merged per_file_count =
    print_dupes about (dupes merged)
    ++ ((if show_unique then print_uniques about (uniques merged) else [])
        ++ ((if list_files_with_multiple
              then print_multi_files about (multi_files per_file_count)
              else [])
            ++ summary merged per_file_count))

-- `main` behind the parser: `show_unique` is always true. A folder that is not there is `none`.
abbrev pub report_of : Surroundings → Bool → List CertInfo → List (Text × ℕ) → List Text × ℕ
report_of about files_with_multiple [] per_file_count = (codes "No certificates found." ∷ [], 0)
report_of about files_with_multiple (c ∷ cs) per_file_count =
    let merged = merge_by_fingerprint (c ∷ cs) in
    (report_lines about true files_with_multiple merged per_file_count, status (dupes merged))

unfoldable pub main : Surroundings → Parser → Bool → Text → Option (List File) → List Text × ℕ
unfolding report_lines
main about parse files_with_multiple folder none =
    ((codes "Error: folder does not exist or is not a directory: " ++ folder) ∷ [], 2)
main about parse files_with_multiple folder (some files) =
    let (certs, per_file_count) = gather_cert_infos parse files in
    report_of about files_with_multiple certs per_file_count
