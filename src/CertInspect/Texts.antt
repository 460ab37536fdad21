-- ===== src/CertInspect/Texts.antt =====
-- OLD/cert_inspect.py: the texts that are printed of a certificate and of a key. What the
-- cryptography package reads out of them, the texts of times, and the time now are given.
pub mod Cut
use public_trash.Base.{
  ℕ, zero, suc, ◌+◌, Bool, true, false, if◌then◌else◌, ltb, List, [], ◌∷◌, ◌++◌, map, length,
  replicate, Option, none, some, Exception, Result, ok, raise, ◌>>=◌,
}
use public_trash.Base.Words.{Bytes}
use public_trash.Base.Texts.{Text, codes, join_with}
use public_trash.Base.Decimal.{decimal}
use public_trash.Base.Hexadecimal.{lower_hex, bytes_hex}

abbrev pub commas : List Text → Text
commas parts = join_with (codes ", ") parts

abbrev pub commas_or_none : List Text → Option Text
commas_or_none [] = none
commas_or_none (p ∷ ps) = some (commas (p ∷ ps))

-- `name_to_str`: a name as its attributes, each with the name of its object identifier.
unfoldable pub name_to_str : List (Text × Text) → Text
name_to_str name = commas (map (λ attr. attr.0 ++ b'=' ∷ attr.1) name)

pub data GeneralName : Type 0 where
  dns_name ip_address uri rfc822_name other_name : Text → GeneralName

abbrev pub general_name : GeneralName → Text
general_name (dns_name value) = codes "DNS:" ++ value
general_name (ip_address value) = codes "IP:" ++ value
general_name (uri value) = codes "URI:" ++ value
general_name (rfc822_name value) = codes "EMAIL:" ++ value
general_name (other_name shown) = shown

-- `none` for an extension that is not there.
unfoldable pub san_to_str : Option (List GeneralName) → Option Text
san_to_str none = none
san_to_str (some names) = commas_or_none (map general_name names)

-- The last two are properties that raise `ValueError` without `key_agreement`.
pub record KeyUsage : Type 0 where
  pub digital_signature : Bool
  pub content_commitment : Bool
  pub key_encipherment : Bool
  pub data_encipherment : Bool
  pub key_agreement : Bool
  pub key_cert_sign : Bool
  pub crl_sign : Bool
  pub encipher_only : Result Bool
  pub decipher_only : Result Bool

abbrev pub bit : Text → Bool → List Text
bit field value = if value then field ∷ [] else []

unfoldable pub key_usage_bits : KeyUsage → Bool → Bool → List Text
key_usage_bits ku encipher decipher =
    bit (codes "digital_signature") ku.digital_signature
    ++ (bit (codes "content_commitment") ku.content_commitment
        ++ (bit (codes "key_encipherment") ku.key_encipherment
            ++ (bit (codes "data_encipherment") ku.data_encipherment
                ++ (bit (codes "key_agreement") ku.key_agreement
                    ++ (bit (codes "key_cert_sign") ku.key_cert_sign
                        ++ (bit (codes "crl_sign") ku.crl_sign
                            ++ (bit (codes "encipher_only") encipher
                                ++ bit (codes "decipher_only") decipher)))))))

unfoldable pub key_usage_str : Option KeyUsage → Result (Option Text)
unfolding key_usage_bits
key_usage_str none = ok none
key_usage_str (some ku) = ku.encipher_only >>= λ encipher.
    ku.decipher_only >>= λ decipher. ok (commas_or_none (key_usage_bits ku encipher decipher))

-- The usages by the names of their object identifiers.
unfoldable pub ext_key_usage_str : Option (List Text) → Option Text
ext_key_usage_str none = none
ext_key_usage_str (some names) = some (commas names)

pub data PublicKey : Type 0 where
  rsa dsa : (key_size : ℕ) → PublicKey
  elliptic_curve other_key : (name : Text) → PublicKey

pub record Certificate : Type 0 where
  pub subject : List (Text × Text)
  pub issuer : List (Text × Text)
  pub serial_number : ℕ
  pub valid_from : Text
  pub valid_to : Text
  pub not_after : ℕ
  pub sig_algorithm : Option Text
  pub subject_alternative_name : Option (List GeneralName)
  pub key_usage : Option KeyUsage
  pub extended_key_usage : Option (List Text)
  -- Both key identifiers, where both extensions are there.
  pub key_identifiers : Option (Option Bytes × Bytes)
  pub public_key : PublicKey

-- The lines printed, up to an exception.
abbrev pub Printing : Type 0
Printing = List Text × Result (Unit {0})

abbrev pub row : Text → Text → List Text
row name value = (name ++ value) ∷ []

-- `if text: print(...)`.
abbrev pub row_if : Text → Option Text → List Text
row_if name none = []
row_if name (some []) = []
row_if name (some (c ∷ cs)) = row name (c ∷ cs)

abbrev pub print_header : Text → List Text
print_header title = (b'\n' ∷ title) ∷ replicate (length title) b'=' ∷ []

abbrev pub public_key_line : PublicKey → Text
public_key_line (rsa key_size) = codes "RSA " ++ (decimal key_size ++ codes " bits")
public_key_line (elliptic_curve name) = codes "EC curve " ++ name
public_key_line (dsa key_size) = codes "DSA " ++ (decimal key_size ++ codes " bits")
public_key_line (other_key name) = name

abbrev pub hex_row : Text → Bytes → List Text
unfolding bytes_hex
hex_row name [] = []
hex_row name (b ∷ bs) = row name (bytes_hex (b ∷ bs))

abbrev pub identifier_rows : Option (Option Bytes × Bytes) → List Text
unfolding bytes_hex
identifier_rows none = []
identifier_rows (some (none, skid)) = hex_row (codes "SKID          : ") skid
identifier_rows (some (some aki, skid)) =
    hex_row (codes "AKI           : ") aki ++ hex_row (codes "SKID          : ") skid

abbrev pub number : Option ℕ → Text
number none = []
number (some i) = codes " #" ++ decimal i

abbrev pub sig_algo_str : Option Text → Text
sig_algo_str none = codes "unknown"
sig_algo_str (some name) = name

-- The lines in front of the key usage.
unfoldable pub front_rows : ℕ → Certificate → Text → Option ℕ → Text → List Text
unfolding name_to_str san_to_str lower_hex
front_rows now cert label index path =
    print_header (label ++ (number index ++ (codes " from " ++ path)))
    ++ (row (codes "Subject       : ") (name_to_str cert.subject)
        ++ (row (codes "Issuer        : ") (name_to_str cert.issuer)
            ++ (row (codes "Serial        : ") (codes "0x" ++ lower_hex cert.serial_number)
                ++ (row (codes "Valid From    : ") cert.valid_from
                    ++ (row (codes "Valid To      : ") cert.valid_to
                        ++ (row (codes "Status        : ")
                              (if ltb cert.not_after now then codes "EXPIRED" else codes "valid")
                            ++ (row (codes "Sig Algorithm : ") (sig_algo_str cert.sig_algorithm)
                                ++ row_if (codes "SANs          : ")
                                    (san_to_str cert.subject_alternative_name))))))))

-- The lines behind it.
unfoldable pub back_rows : Certificate → List Text
unfolding ext_key_usage_str
back_rows cert =
    row_if (codes "Ext Key Usage : ") (ext_key_usage_str cert.extended_key_usage)
    ++ (identifier_rows cert.key_identifiers
        ++ row (codes "Public Key    : ") (public_key_line cert.public_key))

abbrev pub with_key_usage : List Text → Certificate → Result (Option Text) → Printing
unfolding back_rows
with_key_usage front cert (raise problem) = (front, raise problem)
with_key_usage front cert (ok usage) =
    (front ++ (row_if (codes "Key Usage     : ") usage ++ back_rows cert), ok tt)

unfoldable pub print_cert : ℕ → Certificate → Text → Option ℕ → Text → Printing
unfolding front_rows key_usage_str with_key_usage
print_cert now cert label index path =
    with_key_usage (front_rows now cert label index path) cert (key_usage_str cert.key_usage)

-- `print_key`, with `other_key` for a type that is not looked into.
abbrev pub key_rows : PublicKey → List Text
key_rows (rsa key_size) =
    codes "Type          : RSA"
    ∷ (codes "Size          : " ++ (decimal key_size ++ codes " bits"))
    ∷ []
key_rows (elliptic_curve name) =
    codes "Type          : EC" ∷ (codes "Curve         : " ++ name) ∷ []
key_rows (dsa key_size) =
    codes "Type          : DSA"
    ∷ (codes "Size          : " ++ (decimal key_size ++ codes " bits"))
    ∷ []
key_rows (other_key name) = (codes "Type          : " ++ name) ∷ []

unfoldable pub print_key : PublicKey → Text → List Text
print_key key label = print_header label ++ key_rows key
