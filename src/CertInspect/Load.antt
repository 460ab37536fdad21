-- ===== src/CertInspect/Load.antt =====
-- OLD/cert_inspect.py: which objects of a file are shown. `Package` is what the cryptography package
-- loads, `false` or `none` for an exception, also for one that is raised while the object is printed;
-- what is printed up to that is left out.
pub mod Reports
use public_trash.Base.{
  ℕ, zero, suc, ◌+◌, Bool, true, false, not, ◌&&◌, ◌||◌, if◌then◌else◌, List, [], ◌∷◌, ◌++◌, Option,
  none, some,
}
use public_trash.Base.Texts.{Text, codes, starts_with}
use public_trash.CertInspect.{is_pem, split_pem_blocks}

-- What a PKCS#12 store holds: a key, a certificate, and further certificates.
pub record Store : Type 0 where
  pub key : Bool
  pub cert : Bool
  pub additional : ℕ

pub record Package : Type 0 where
  pub have_pkcs7 : Bool
  pub load_pem_certificate : Text → Bool
  pub load_pem_crl : Text → Bool
  pub load_pem_private_key : Text → Bool
  pub load_pem_pkcs7 : Text → Option ℕ
  pub load_der_certificate : Text → Bool
  pub load_der_crl : Text → Bool
  pub load_der_pkcs7 : Text → Option ℕ
  pub load_key_and_certificates : Text → Option Text → Option Store

pub data Object : Type 0 where
  certificate crl private_key pkcs12_private_key pkcs12_certificate : Object
  pkcs7_certificate pkcs12_additional : (index : ℕ) → Object

-- The objects that are printed, and the messages of `main`.
pub data Printed : Type 0 where
  shown : Object → Printed
  error_reading no_pem_blocks no_recognizable : Printed

-- What is printed, and `loaded_any`.
abbrev pub Loaded : Type 0
Loaded = List Printed × Bool

abbrev pub nothing : Loaded
nothing = ([], false)

abbrev pub one : Object → Loaded
one object = (shown object ∷ [], true)

-- One attempt behind another.
abbrev pub then_also : Loaded → Loaded → Loaded
then_also (out, loaded) (more, also) = (out ++ more, loaded || also)

-- `for i, c in enumerate(certs, 1)`.
abbrev pub enumerated : (ℕ → Object) → ℕ → ℕ → List Printed
enumerated print i zero = []
enumerated print i (suc n) = shown (print i) ∷ enumerated print (i + 1) n

abbrev pub show_pkcs7 : Option ℕ → Loaded
show_pkcs7 none = nothing
show_pkcs7 (some zero) = nothing
show_pkcs7 (some (suc n)) = (enumerated pkcs7_certificate 1 (suc n), true)

-- `needle in s`.
unfoldable pub in_text : Text → Text → Bool
in_text needle [] = starts_with [] needle
in_text needle (c ∷ cs) = starts_with (c ∷ cs) needle || in_text needle cs

unfoldable pub load_block : Package → Text × Text → Loaded
unfolding in_text
load_block p (label, payload) =
    if in_text (codes "CERTIFICATE") label
      && not (in_text (codes "REQUEST") label)
      && p.load_pem_certificate payload
    then one certificate
    else if in_text (codes "CRL") label && p.load_pem_crl payload
    then one crl
    else if in_text (codes "PRIVATE KEY") label && p.load_pem_private_key payload
    then one private_key
    else if p.have_pkcs7 && in_text (codes "PKCS7") label
    then show_pkcs7 (p.load_pem_pkcs7 payload)
    else nothing

unfoldable pub try_load_pem_objects : Package → List (Text × Text) → Loaded
unfolding load_block
try_load_pem_objects p [] = nothing
try_load_pem_objects p (block ∷ blocks) =
    then_also (load_block p block) (try_load_pem_objects p blocks)

abbrev pub show_store : Store → List Printed
show_store s =
    (if s.key then shown pkcs12_private_key ∷ [] else [])
    ++ ((if s.cert then shown pkcs12_certificate ∷ [] else [])
        ++ enumerated pkcs12_additional 1 s.additional)

-- `if key or cert or addl`.
abbrev pub is_empty_list : List Printed → Bool
is_empty_list [] = true
is_empty_list (_ ∷ _) = false

abbrev pub with_password : Option Store → Loaded
with_password none = nothing
with_password (some s) = if is_empty_list (show_store s) then nothing else (show_store s, true)

abbrev pub without_password : Option Store → Option Store → Loaded
without_password none again = with_password again
without_password (some s) again = (show_store s, true)

unfoldable pub try_load_der_objects : Package → Text → Loaded
try_load_der_objects p raw =
    then_also (if p.load_der_certificate raw then one certificate else nothing) (
      then_also (if p.load_der_crl raw then one crl else nothing) (
        then_also (if p.have_pkcs7 then show_pkcs7 (p.load_der_pkcs7 raw) else nothing) (
          without_password (p.load_key_and_certificates raw none)
            (p.load_key_and_certificates raw (some [])))))

abbrev pub load_blocks : Package → List (Text × Text) → Loaded
load_blocks p [] = (no_pem_blocks ∷ [], false)
load_blocks p (block ∷ blocks) = try_load_pem_objects p (block ∷ blocks)

abbrev pub report : Loaded → List Printed
report (out, loaded) = if loaded then out else out ++ no_recognizable ∷ []

-- `main`, on what the file holds, `none` when it cannot be read: what is printed, and the status.
unfoldable pub main : Package → Option Text → List Printed × ℕ
unfolding try_load_pem_objects try_load_der_objects
main p none = (error_reading ∷ [], 2)
main p (some raw) =
    let loaded =
      if is_pem raw then load_blocks p (split_pem_blocks raw) else try_load_der_objects p raw in
    (report loaded, 0)
