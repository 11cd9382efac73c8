-- ===== src/Store/Scan/Classify/Collected.antt =====
-- store/recovery.go (`classify`): what is removed, and what is set aside.
use buff.Common.{
  ◌≡◌, ◌≢◌, refl, sym, ◌∙◌, ◌⊎◌, inl, inr, Bool, true, false, Option, none, some, [], Bytes,
  bytes_eq, length, take, Bool-cases,
}
use buff.Clip.Errors.{Error}
use buff.Clip.Name.{valid_name}
use buff.Store.GenId.{GenId}
use buff.Store.Recovery.{parse_gen_id}
use buff.Store.Record.{MetaFile, Fault, load_meta, validate, max_meta_bytes}
use buff.Store.Disk.{file_data, file_meta}
use buff.Store.Disk.Commit.{DiskMedium, checksum_data}
use buff.Store.Disk.Crash.{Files}
use buff.Store.Scan.Directory.{Faults, OtherError}
use buff.Store.Scan.Classify.{
  Candidate, keep, set_aside, collect, checksum_mismatch, read_meta, verified, checked, validated,
  with_data, named, loaded, read, parsed, fate,
}

verified_spares : (x : Bytes ⊎ Error) (c : Candidate) → verified x c ≢ collect
verified_spares (inr e) c p = cc
verified_spares (inl sum) c p = elim (Bool-cases (bytes_eq sum c.mf.checksum)) [
  | inl b ↦ let q : verified (inl sum) c ≡ keep c = rw b refl in cc
  | inr b ↦ let q : verified (inl sum) c ≡ set_aside checksum_mismatch = rw b refl in cc
]

checked_spares :
    (m : DiskMedium) (verify : Bool) (io : Faults) (content : Bytes) (c : Candidate)
    → checked m verify io content c ≢ collect
checked_spares m false io content c p = cc
checked_spares m true io content c p = elim (Bool-cases (bytes_eq c.mf.checksum [])) [
  | inl b ↦ let q : checked m true io content c ≡ keep c = rw b refl in cc
  | inr b ↦
      let x = checksum_data m io.read_data (some content) in
      let q : checked m true io content c ≡ verified x c = rw b refl in
      verified_spares x c (sym q ∙ p)
]

validated_spares :
    (m : DiskMedium) (verify : Bool) (io : Faults) (content : Bytes) (c : Candidate)
    (x : Option Fault)
    → validated m verify io content c x ≢ collect
validated_spares m verify io content c (some x) p = cc
validated_spares m verify io content c none p = checked_spares m verify io content c p

with_data_collects :
    (m : DiskMedium) (verify : Bool) (io : Faults) (id : GenId) (mf : MetaFile)
    (err : Option OtherError) (o : Option Bytes)
    → with_data m verify io id mf err o ≡ collect
    → o ≡ none
with_data_collects m verify io id mf (some x) o e = cc
with_data_collects m verify io id mf none none e = refl
with_data_collects m verify io id mf none (some content) e = absurd (
    validated_spares m verify io content (record { id = id; mf = mf; size = length content })
      (validate mf id (length content)) e)

named_collects :
    (m : DiskMedium) (verify : Bool) (io : Faults) (id : GenId) (mf : MetaFile) (err : Option Error)
    (o : Option Bytes)
    → named m verify io id mf err o ≡ collect
    → (err ≡ none) × (o ≡ none)
named_collects m verify io id mf (some x) o e = cc
named_collects m verify io id mf none o e =
    (refl, with_data_collects m verify io id mf io.stat_data o e)

loaded_collects :
    (m : DiskMedium) (verify : Bool) (io : Faults) (id : GenId) (x : MetaFile ⊎ Fault)
    (o : Option Bytes)
    → loaded m verify io id x o ≡ collect
    → o ≡ none
loaded_collects m verify io id (inr x) o e = cc
loaded_collects m verify io id (inl mf) o e =
    (named_collects m verify io id mf (valid_name mf.name) o e).1

read_collects :
    (m : DiskMedium) (verify : Bool) (io : Faults) (id : GenId) (err : Option OtherError)
    (r o : Option Bytes)
    → read m verify io id (read_meta err r) o ≡ collect
    → (r ≡ none) ⊎ (o ≡ none)
read_collects m verify io id (some x) r o e = cc
read_collects m verify io id none none o e = inl refl
read_collects m verify io id none (some b) o e =
    inr (loaded_collects m verify io id (load_meta m.json (take max_meta_bytes b)) o e)

parsed_collects :
    (m : DiskMedium) (verify : Bool) (io : Faults) (p : Option GenId) (f : Files)
    → parsed m verify io p f ≡ collect
    → (p ≢ none) × ((f file_meta ≡ none) ⊎ (f file_data ≡ none))
parsed_collects m verify io none f e = cc
parsed_collects m verify io (some id) f e =
    (λ q. cc, read_collects m verify io id io.read_meta (f file_meta) (f file_data) e)

-- Recovery removes only what is beyond repair: with any faults of its calls, a directory that
-- `classify` removes has the name of a generation, and has no record or has no data. So a directory
-- with both, and one that the store did not name, is kept or set aside.
pub fate_collects :
    (m : DiskMedium) (verify : Bool) (io : Faults) (dirname : Bytes) (f : Files)
    → fate m verify io dirname f ≡ collect
    → (parse_gen_id dirname ≢ none) × ((f file_meta ≡ none) ⊎ (f file_data ≡ none))
unfolding fate
fate_collects m verify io dirname f e = parsed_collects m verify io (parse_gen_id dirname) f e
