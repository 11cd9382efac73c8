-- ===== src/Tests/Codecs.antt =====
-- A codec of records that stands in for encoding/json: numbers first, then each text with its length,
-- and the checksum last.
use buff.Common.{
  ℕ, zero, suc, ◌≡◌, refl, ap, sym, ◌∙◌, inl, inr, Bool, true, false, Option, none, some, [], ◌∷◌,
  ◌++◌, Bytes, arith, take, drop, length, take-append_le, take-length, ◌⊎◌,
}
use buff.Clip.Errors.{Error, bad_request}
use buff.Store.Record.{MetaFile, Json, IsJson}

abbrev pub flag : Bool → ℕ
flag true = 1
flag false = 0

abbrev unflag : ℕ → Bool
unflag zero = false
unflag _ = true

abbrev pub optional : Option ℕ → ℕ
optional none = 0
optional (some n) = suc n

abbrev unoptional : ℕ → Option ℕ
unoptional zero = none
unoptional (suc n) = some n

abbrev pub text : Bytes → Bytes → Bytes
text s rest = length s ∷ (s ++ rest)

abbrev head_text : Bytes → Bytes
head_text [] = []
head_text (n ∷ s) = take n s

abbrev tail_text : Bytes → Bytes
tail_text [] = []
tail_text (n ∷ s) = drop n s

abbrev pub encode : MetaFile → Bytes
encode mf =
    mf.version
    ∷ flag mf.executable
    ∷ mf.size
    ∷ mf.created_at
    ∷ optional mf.finalized_at
    ∷ optional mf.expires_at
    ∷ flag mf.consume_once
    ∷ text mf.name (text mf.generation (text mf.kind (text mf.filename mf.checksum)))

abbrev pub decode : Bytes → MetaFile ⊎ Error
decode (version ∷ executable ∷ size ∷ created ∷ finalized ∷ expires ∷ consume ∷ s₁) =
    let s₂ = tail_text s₁ in
    let s₃ = tail_text s₂ in
    let s₄ = tail_text s₃ in
    inl (record {
      version = version;
      name = head_text s₁;
      generation = head_text s₂;
      kind = head_text s₃;
      filename = head_text s₄;
      executable = unflag executable;
      size = size;
      created_at = created;
      finalized_at = unoptional finalized;
      expires_at = unoptional expires;
      consume_once = unflag consume;
      checksum = tail_text s₄;
    })
decode _ = inr bad_request

abbrev pub json : Json
json = record { marshal = λ mf. inl (encode mf); unmarshal = decode }

head_text-text : (s rest : Bytes) → head_text (text s rest) ≡ s
head_text-text s rest = take-append_le (length s) s rest (omega arith) ∙ take-length s

tail_text-text : (s rest : Bytes) → tail_text (text s rest) ≡ rest
unfolding drop
tail_text-text [] rest = refl
tail_text-text (c ∷ s) rest = tail_text-text s rest

unflag-flag : (b : Bool) → unflag (flag b) ≡ b
unflag-flag true = refl
unflag-flag false = refl

unoptional-optional : (o : Option ℕ) → unoptional (optional o) ≡ o
unoptional-optional none = refl
unoptional-optional (some n) = refl

pub decode-encode : (mf : MetaFile) → decode (encode mf) ≡ inl mf
decode-encode mf = simp (head_text-text, tail_text-text, unflag-flag, unoptional-optional)

pub json-IsJson : IsJson json
json-IsJson = record {
  unmarshal-marshal =
      λ mf b t e. let q : encode mf ≡ b = cc in ap decode (sym q) ∙ decode-encode mf;
}

pub marshalled : (mf : MetaFile) (b : Bytes) → json.marshal mf ≡ inl b → encode mf ≡ b
marshalled mf b e = cc
