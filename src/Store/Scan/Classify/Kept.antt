-- ===== src/Store/Scan/Classify/Kept.antt =====
-- store/recovery.go (`classify`): on a disk whose calls are granted, every sound generation is kept.
use buff.Common.{
  ◌≡◌, refl, sym, ap, ◌∙◌, ◌↔◌, inl, inr, Bool, true, false, none, [], Bytes, bytes_eq,
  bytes_eq_iff, length, take, Bool-cases,
}
use buff.Store.Record.{load_meta_iff, validate_iff, max_meta_bytes}
use buff.Store.Disk.{file_data}
use buff.Store.Disk.Commit.{DiskMedium, checksum_data, checksum_text}
use buff.Store.Disk.Crash.{Files}
use buff.Store.Scan.Directory.{granted}
use buff.Store.Scan.Classify.{
  Candidate, keep, read_meta, verified, checked, validated, with_data, named, loaded, read, parsed,
  fate,
}
use buff.Store.Scan.Classify.Sound.{IsSound, IsIntact, fate-IsSound, candidate}

checked_complete :
    (m : DiskMedium) (verify : Bool) (content : Bytes) (c : Candidate)
    → IsIntact m verify c.mf.checksum content
    → checked m verify granted content c ≡ keep c
unfolding checksum_data
checked_complete m false content c k = refl
checked_complete m true content c k = elim (Bool-cases (bytes_eq c.mf.checksum [])) [
  | inl b ↦ rw b refl
  | inr b ↦
      let q : c.mf.checksum ≡ checksum_text (m.crc content) =
        k refl (λ e. let z = (bytes_eq_iff c.mf.checksum []).1 e in cc) in
      let r : bytes_eq (checksum_text (m.crc content)) c.mf.checksum ≡ true =
        (bytes_eq_iff (checksum_text (m.crc content)) c.mf.checksum).1 (sym q) in
      let x : checked m true granted content c ≡ verified (inl (checksum_text (m.crc content))) c =
        rw b refl in
      x ∙ rw r refl
]

fate_complete :
    (m : DiskMedium) (verify : Bool) (dirname : Bytes) (f : Files) (c : Candidate)
    → IsSound m verify dirname f c
    → fate m verify granted dirname f ≡ keep c
unfolding fate
fate_complete m verify dirname f c s =
    let d = f file_data in
    let t = take max_meta_bytes s.encoded in
    let n = length s.content in
    ap (λ p. parsed m verify granted p f) s.own_name
    ∙ ap (λ r. read m verify granted c.id (read_meta none r) d) s.record_there
    ∙ ap (λ x. loaded m verify granted c.id x d)
        ((load_meta_iff m.json t c.mf).1 (s.decoded, s.understood))
    ∙ ap (λ v. named m verify granted c.id c.mf v d) s.slot
    ∙ ap (λ o. with_data m verify granted c.id c.mf none o) s.data_there
    ∙ ap (validated m verify granted s.content (candidate c.id c.mf n))
        ((validate_iff c.mf c.id n).1 (s.own_record, s.whole))
    ∙ checked_complete m verify s.content (candidate c.id c.mf n) s.intact
    ∙ ap (λ k. keep (candidate c.id c.mf k)) (sym s.measured)

-- On a disk whose calls are granted, a directory is kept, as this candidate, exactly when it has the
-- name of the candidate's id, a record of a version that is understood, which can be read and names
-- this id and a valid slot, and as many bytes as the record says, of the checksum that it records,
-- if it records one and checksums are verified.
pub fate_keep_iff :
    (m : DiskMedium) (verify : Bool) (dirname : Bytes) (f : Files) (c : Candidate)
    → (fate m verify granted dirname f ≡ keep c) ↔ IsSound m verify dirname f c
fate_keep_iff m verify dirname f c =
    (fate-IsSound m verify granted dirname f c, fate_complete m verify dirname f c)
