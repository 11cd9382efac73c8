-- ===== src/Clip/Meta.antt =====
-- clip/clip.go: the kind of a clip, its metadata, and the view of it that leaves the store.
use buff.Common.{
  ℕ, ◌≡◌, ◌⊎◌, ◌↔◌, subst, Bool, true, false, not, ◌&&◌, ◌||◌, Option, [], arith, Bytes, codes,
  bytes_eq, bytes_eq_iff, if◌then◌else◌,
}

-- `type Kind string`: a record on disk can hold any text.
abbrev pub Kind : Type 0
Kind = Bytes

abbrev pub kind_bytes : Kind
kind_bytes = codes "bytes"

abbrev pub kind_file : Kind
kind_file = codes "file"

abbrev pub kind_archive : Kind
kind_archive = codes "archive"

unfoldable pub kind_valid : Kind → Bool
kind_valid k = bytes_eq k kind_bytes || bytes_eq k kind_file || bytes_eq k kind_archive

pub record Meta : Type 0 where
  pub kind : Kind
  pub filename : Bytes
  pub executable : Bool

unfoldable pub normalized : Meta → Meta
normalized m =
    let m' = if not (bytes_eq m.kind kind_file) then record m { executable = false } else m in
    if not (bytes_eq m'.kind kind_file) && not (bytes_eq m'.kind kind_archive)
    then record m' { filename = [] }
    else m'

-- Instants are nanoseconds; a Go zero `time.Time` is `none`.
pub record Clip : Type 0 where
  pub name : Bytes
  pub generation : Bytes
  pub metadata : Meta
  pub size : ℕ
  pub created_at : ℕ
  pub finalized_at : Option ℕ
  pub expires_at : Option ℕ
  pub consume_once : Bool
  pub finalized : Bool

-- What a kind may carry: a run bit on a file only, a filename on a file or an archive only.
pub record IsNormal (m : Meta) : Type 0 where
  pub run_bit : m.executable ≡ true → m.kind ≡ kind_file
  pub basename : (m.filename ≡ []) ⊎ (m.kind ≡ kind_file) ⊎ (m.kind ≡ kind_archive)

-- Normalizing any metadata keeps the kind and gives metadata that its kind may carry, and it leaves
-- as they were exactly the metadata that already were so.
normalized_lem :
    (m : Meta)
    → IsNormal (normalized m) × ((normalized m).kind ≡ m.kind) × ((normalized m ≡ m) ↔ IsNormal m)
unfolding normalized
normalized_lem m =
    let normal : IsNormal (normalized m) =
      ground (arith, bytes_eq_iff m.kind kind_file, bytes_eq_iff m.kind kind_archive) in
    (
      normal,
      ground arith,
      (
        λ e. subst IsNormal e normal,
        λ h. ground (arith, bytes_eq_iff m.kind kind_file, bytes_eq_iff m.kind kind_archive),
      ),
    )
