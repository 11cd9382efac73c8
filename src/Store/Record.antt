-- ===== src/Store/Record.antt =====
-- store/meta.go: the durable record of a finalized generation, written and read as JSON.
use buff.Common.{
  ℕ, ◌≡◌, ◌↔◌, ◌⊎◌, inl, inr, Bool, true, false, not, Option, none, some, Bytes, arith, bytes_eq,
  bytes_eq_iff, ◌==◌, ==_iff, slt64, if◌then◌else◌,
}
use buff.Clip.Errors.{Error}
use buff.Clip.Meta.{Kind}
use buff.Clip.Name.{utf8_valid}
use buff.Store.GenId.{GenId, id_string}

-- `version` and `size` are 64-bit patterns.
pub record MetaFile : Type 0 where
  pub version : ℕ
  pub name : Bytes
  pub generation : Bytes
  pub kind : Kind
  pub filename : Bytes
  pub executable : Bool
  pub size : ℕ
  pub created_at : ℕ
  pub finalized_at : Option ℕ
  pub expires_at : Option ℕ
  pub consume_once : Bool
  pub checksum : Bytes

abbrev pub meta_version : ℕ
meta_version = 1

-- `maxMetaBytes` of store/recovery.go.
abbrev pub max_meta_bytes : ℕ
max_meta_bytes = 1048576

-- `json.Marshal` and `json.Unmarshal` of a record.
pub record Json : Type 0 where
  pub marshal : MetaFile → Bytes ⊎ Error
  pub unmarshal : Bytes → MetaFile ⊎ Error

-- A record whose strings are text, which JSON can hold.
pub record IsText (mf : MetaFile) : Type 0 where
  pub name_text : utf8_valid mf.name ≡ true
  pub generation_text : utf8_valid mf.generation ≡ true
  pub kind_text : utf8_valid mf.kind ≡ true
  pub filename_text : utf8_valid mf.filename ≡ true
  pub checksum_text : utf8_valid mf.checksum ≡ true

-- What encoding/json documents: it reads back a record of text that it wrote.
pub record IsJson (j : Json) : Type 0 where
  pub unmarshal-marshal :
      (mf : MetaFile) (b : Bytes) → IsText mf → j.marshal mf ≡ inl b → j.unmarshal b ≡ inl mf

-- What is wrong with a record: the text of the error, as a constructor.
pub data Fault : Type 0 where
  undecodable : Error → Fault
  newer_version : ℕ → Fault
  generation_mismatch : Bytes → Bytes → Fault
  size_mismatch : ℕ → ℕ → Fault

abbrev gated : MetaFile ⊎ Error → MetaFile ⊎ Fault
gated (inr e) = inr (undecodable e)
gated (inl mf) = if slt64 meta_version mf.version then inr (newer_version mf.version) else inl mf

-- `loadMeta`
unfoldable pub load_meta : Json → Bytes → MetaFile ⊎ Fault
load_meta j b = gated (j.unmarshal b)

unfoldable pub validate : MetaFile → GenId → ℕ → Option Fault
unfolding id_string bytes_eq
validate mf id data_size =
    if not (bytes_eq mf.generation (id_string id))
    then some (generation_mismatch mf.generation (id_string id))
    else if not (mf.size == data_size)
    then some (size_mismatch mf.size data_size)
    else none

pub load_meta_iff :
    (j : Json) (b : Bytes) (mf : MetaFile)
    → (load_meta j b ≡ inl mf)
      ↔ ((j.unmarshal b ≡ inl mf) × (slt64 meta_version mf.version ≡ false))
unfolding load_meta
load_meta_iff j b mf = ground arith

both_checks :
    (c d : Bool) (x y : Fault)
    → ((if not c then some x else if not d then some y else none) ≡ none)
      ↔ ((c ≡ true) × (d ≡ true))
both_checks c d x y = ground arith

pub validate_iff :
    (mf : MetaFile) (id : GenId) (n : ℕ)
    → (validate mf id n ≡ none) ↔ ((mf.generation ≡ id_string id) × (mf.size ≡ n))
unfolding validate
validate_iff mf id n =
    let (f, g) =
      both_checks (bytes_eq mf.generation (id_string id)) (mf.size == n)
        (generation_mismatch mf.generation (id_string id)) (size_mismatch mf.size n) in
    let (a, b) = bytes_eq_iff mf.generation (id_string id) in
    let (c, d) = ==_iff mf.size n in (λ e. let (p, q) = f e in (a p, c q), λ (p, q). g (b p, d q))
