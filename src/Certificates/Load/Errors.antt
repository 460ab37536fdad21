-- ===== src/Certificates/Load/Errors.antt =====
-- An exception of the decoder that is not caught.
use public_trash.Base.{
  ◌≡◌, sym, subst, List, [], ◌∷◌, ◌++◌, value_error, Result, ok, raise, ◌>>=◌, Bool-cases, inl, inr,
}
use public_trash.Base.Words.{Bytes}
use public_trash.Base.Texts.{Text, strip}
use public_trash.Certificates.{Parser}
use public_trash.Certificates.Load.{
  Decoder, Found, pem_blocks, add_decoded, is_malformed, decode_blocks, candidates, load_files,
  load_der_candidates_from_pem_text,
}

-- A call that raises something.
abbrev pub IsRaised {ℓ} : {A : Type ℓ} → Result A → Type 0
IsRaised (ok a) = ⊥
IsRaised (raise problem) = Unit

add_decoded-IsRaised :
    (ders : Result (List Bytes)) (der : Result Bytes)
    → IsRaised ders
    → IsRaised (add_decoded ders der)
add_decoded-IsRaised (ok ds) der h = absurd h
add_decoded-IsRaised (raise p) (ok d) h = tt
add_decoded-IsRaised (raise p) (raise q) h = elim (Bool-cases (is_malformed q)) [
  | inl malformed ↦ rw malformed tt
  | inr other ↦ rw other tt
]

decode_blocks-IsRaised :
    (b64decode : Decoder) (before after : List Text) (block : Text)
    → b64decode (strip block) ≡ raise value_error
    → IsRaised (decode_blocks b64decode (before ++ block ∷ after))
unfolding decode_blocks
decode_blocks-IsRaised b64decode [] after block h = rw h tt
decode_blocks-IsRaised b64decode (b ∷ bs) after block h =
    add_decoded-IsRaised (decode_blocks b64decode (bs ++ block ∷ after)) (b64decode (strip b))
      (decode_blocks-IsRaised b64decode bs after block h)

bind-IsRaised {ℓ κ} :
    {A : Type ℓ} {B : Type κ} (m : Result A) (next : A → Result B)
    → IsRaised m
    → IsRaised (m >>= next)
bind-IsRaised (ok a) next h = absurd h
bind-IsRaised (raise p) next h = tt

bind-IsRaised_later {ℓ κ} :
    {A : Type ℓ} {B : Type κ} (m : Result A) (next : A → Result B)
    → ((a : A) → IsRaised (next a))
    → IsRaised (m >>= next)
bind-IsRaised_later (ok a) next h = h a
bind-IsRaised_later (raise p) next h = tt

-- Where `base64.b64decode` raises `ValueError` itself on a block of a file, as it does on
-- characters that are not ASCII, no files are loaded at all, wherever the file stands in the
-- walk.
pub load_files-value_error :
    (b64decode : Decoder) (parse : Parser) (front back : List Found) (f : Found)
    (before after : List Text) (block : Text)
    → pem_blocks f.text ≡ before ++ block ∷ after
    → b64decode (strip block) ≡ raise value_error
    → IsRaised (load_files b64decode parse (front ++ f ∷ back))
unfolding load_files candidates load_der_candidates_from_pem_text
load_files-value_error b64decode parse [] back f before after block there h =
    bind-IsRaised (candidates b64decode parse f) _ (
      bind-IsRaised (load_der_candidates_from_pem_text b64decode f.text) _ (
        subst (λ bs. IsRaised (decode_blocks b64decode bs)) (sym there)
          (decode_blocks-IsRaised b64decode before after block h)))
load_files-value_error b64decode parse (g ∷ gs) back f before after block there h =
    bind-IsRaised_later (candidates b64decode parse g) _ (λ ders.
      bind-IsRaised (load_files b64decode parse (gs ++ f ∷ back)) _
        (load_files-value_error b64decode parse gs back f before after block there h))
