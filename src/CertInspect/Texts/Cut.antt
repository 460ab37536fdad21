-- ===== src/CertInspect/Texts/Cut.antt =====
-- What is printed of a certificate whose key usage cannot be read out.
use public_trash.Base.{ℕ, ◌≡◌, refl, Option, some, value_error, raise}
use public_trash.Base.Texts.{Text}
use public_trash.CertInspect.Texts.{KeyUsage, Certificate, key_usage_str, front_rows, print_cert}

-- `encipher_only` of a key usage without `key_agreement` raises `ValueError`, which `key_usage_str`
-- does not catch: nothing is printed behind the subject's alternative names.
print_cert-key_usage :
    (now : ℕ) (cert : Certificate) (ku : KeyUsage) (label : Text) (index : Option ℕ) (path : Text)
    → cert.key_usage ≡ some ku
    → ku.encipher_only ≡ raise value_error
    → print_cert now cert label index path
      ≡ (front_rows now cert label index path, raise value_error)
unfolding print_cert key_usage_str
print_cert-key_usage now cert ku label index path there h = rw (there, h) refl
