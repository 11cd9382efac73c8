-- ===== src/Store/Scan/Outcome.antt =====
-- store/disk.go and store/recovery.go: a generation on the disk, through a crash, to the next start.
use buff.Common.{
  ◌≡◌, ◌≢◌, ◌≤◌, ◌<◌, refl, sym, ap, ◌∙◌, [], inl, inr, Bool, true, Option, none, some, Bytes,
  arith, length, take_all, word, ◌⊎◌, Sum-cases, Bool-cases,
}
use buff.Clip.Errors.{Error}
use buff.Clip.Name.{valid_name, utf8_valid}
use buff.Clip.Meta.{normalized}
use buff.Store.GenId.{id_string}
use buff.Store.Generation.{Generation}
use buff.Store.Recovery.{parse_gen_id_iff}
use buff.Store.Restore.{Recovered}
use buff.Store.Record.{MetaFile, IsJson, max_meta_bytes}
use buff.Store.Disk.{Home, Os, file_data, find}
use buff.Store.Disk.Commit.{
  DiskMedium, Answer, finalize, stamped, record_of, remove, checksum_data, checksum_text,
  content_of, with_sum,
}
use buff.Store.Disk.Crash.{Files, Crashed}
use buff.Store.Disk.Crash.Retired.{Retires, retired_stays}
use buff.Store.Disk.Crash.Published.{IsPublished, finalize_survives}
use buff.Store.Disk.Crash.Recording.{IsSynced}
use buff.Store.Scan.{to_recovered}
use buff.Store.Scan.Directory.{Tree, Faults, granted, files_in}
use buff.Store.Scan.Classify.{Candidate, keep, fate}
use buff.Store.Scan.Classify.Sound.{IsSound, fate-IsSound, candidate, checksum_data_sound}
use buff.Store.Scan.Classify.Kept.{fate_keep_iff}
use buff.Store.Scan.Text.{id_string_text, checksum_text_text, length-checksum_text, valid_name_text}

-- A generation that was claimed, deleted or aborted is not served again. If flushing is on and the
-- rename of its record was answered without a fault, then whatever the removal that follows unlinks
-- and wherever it fails, no directory that a crash leaves is kept at the next start, whatever the
-- faults of recovery's own calls.
pub retired_not_kept :
    (m : DiskMedium) (os os' : Os) (h : Home) (r : Answer) (f : Files)
    → m.fsync ≡ true
    → Retires m os h r
    → r.2 ≡ none
    → Crashed (remove os' r.0) (some f)
    → (verify : Bool) (io : Faults) (dirname : Bytes) (c : Candidate)
    → fate m verify io dirname f ≢ keep c
retired_not_kept m os os' h r f s k a x verify io dirname c e =
    let w = fate-IsSound m verify io dirname f c e in
    let z = sym w.record_there ∙ retired_stays m os os' h r f s k a x in cc

-- What the writer guarantees of a generation: a valid name, an id of two uint64, texts, all the
-- bytes, and a record that is not too long to be read.
pub record IsRecordable (m : DiskMedium) (g : Generation) (d : Bytes) : Type 0 where
  pub slot : valid_name g.name ≡ none
  pub prefix_fits : g.id.prefix < word
  pub tail_fits : g.id.tail < word
  pub kind_text : utf8_valid g.metadata.kind ≡ true
  pub filename_text : utf8_valid g.metadata.filename ≡ true
  pub all_written : g.buf.size ≡ length d
  pub fits :
      (sum b : Bytes)
      → length sum ≤ 15
      → m.json.marshal (record (record_of g) { checksum = sum }) ≡ inl b
      → length b ≤ max_meta_bytes

abbrev right : MetaFile → MetaFile ⊎ Error
right a = inl a

inl_inj : (a b : MetaFile) → right a ≡ right b → a ≡ b
inl_inj a b e = cc

-- The record that `finalize` writes: that of the generation, with the checksum of the bytes if
-- checksums are on.
stamped_lem :
    (m : DiskMedium) (os : Os) (g : Generation) (h : Home) (d : Bytes) (mf : MetaFile)
    → IsSynced h d
    → stamped m os g h ≡ inl mf
    → (sum : Bytes) × (mf ≡ record (record_of g) { checksum = sum })
      × (utf8_valid sum ≡ true)
      × (sum ≢ [] → sum ≡ checksum_text (m.crc d))
      × (length sum ≤ 15)
stamped_lem m os g h d mf w e = elim (Bool-cases m.checksum) [
  | inr b ↦
      let q : stamped m os g h ≡ inl (record_of g) = rw b refl in
      let r : mf ≡ record_of g = let z = sym q ∙ e in cc in
      (
        [],
        r ∙ unfold record_of in refl,
        unfold utf8_valid in refl,
        λ n. absurd (n refl),
        omega arith,
      )
  | inl b ↦
      let p : content_of h (find h.seen file_data) ≡ some d =
        rw (w.was_seen, w.data_entry, w.data_flushed) refl in
      let x = checksum_data m os.read_fault (some d) in
      let q : stamped m os g h
          ≡ with_sum g (checksum_data m os.read_fault (content_of h (find h.seen file_data))) =
        rw b refl in
      let y : with_sum g x ≡ inl mf =
        sym (q ∙ ap (λ o. with_sum g (checksum_data m os.read_fault o)) p) ∙ e in
      elim (Sum-cases x) [
        | inr (err, v) ↦ let z : with_sum g x ≡ inr err = rw v refl in cc
        | inl (sum, v) ↦
            let z : with_sum g x ≡ inl (record (record_of g) { checksum = sum }) = rw v refl in
            let s = checksum_data_sound m os.read_fault d sum v in
            (
              sum,
              inl_inj mf (record (record_of g) { checksum = sum }) (sym y ∙ z),
              rw s (checksum_text_text (m.crc d)),
              λ n. s,
              rw s (omega (arith, length-checksum_text (m.crc d))),
            )
      ]
]

-- What recovery makes of a generation.
abbrev pub recovered_of : Generation → Bytes → Recovered
recovered_of g d = record {
  id = g.id;
  name = g.name;
  metadata = normalized g.metadata;
  created = g.created;
  finalized_at = g.finalized_at;
  expires = g.expires;
  consume = g.consume;
  size = length d;
  stored = d;
}

stamped-IsSound :
    (m : DiskMedium) (g : Generation) (d sum b : Bytes) (verify : Bool) (f : Files)
    → IsJson m.json
    → IsRecordable m g d
    → utf8_valid sum ≡ true
    → (sum ≢ [] → sum ≡ checksum_text (m.crc d))
    → length sum ≤ 15
    → m.json.marshal (record (record_of g) { checksum = sum }) ≡ inl b
    → IsPublished d b f
    → IsSound m verify
        (id_string g.id)
        f
        (candidate g.id (record (record_of g) { checksum = sum }) (length d))
unfolding record_of
stamped-IsSound m g d sum b verify f j w u k short e p = record {
  content = d;
  encoded = b;
  own_name = (parse_gen_id_iff (id_string g.id) g.id w.prefix_fits w.tail_fits).1 refl;
  record_there = p.record_there;
  decoded =
      ap m.json.unmarshal (take_all max_meta_bytes b (w.fits sum b short e))
      ∙ j.unmarshal-marshal (record (record_of g) { checksum = sum }) b
          (record {
            name_text = valid_name_text g.name w.slot;
            generation_text = id_string_text g.id;
            kind_text = w.kind_text;
            filename_text = w.filename_text;
            checksum_text = u;
          })
          e;
  understood = refl;
  slot = w.slot;
  data_there = p.bytes_there;
  own_record = refl;
  whole = w.all_written;
  measured = refl;
  intact = λ v n. k n;
}

stamped-to_recovered :
    (g : Generation) (d sum : Bytes) (t : Tree) (f : Files)
    → files_in t (id_string g.id) file_data ≡ some d
    → to_recovered t (candidate g.id (record (record_of g) { checksum = sum }) (length d))
      ≡ recovered_of g d
unfolding to_recovered record_of
stamped-to_recovered g d sum t f e = rw e refl

-- A published generation comes back as it was. If flushing is on, JSON reads back what it wrote, the
-- writer has synced all the bytes of a generation that has a valid name, an id of two uint64, a kind
-- and a filename of valid UTF-8 and a record short enough to be read back, and `finalize` answers
-- without a fault, then any crash leaves a directory that recovery, whether or not it verifies checksums,
-- keeps, and rebuilds with the same id, name, times, retention and bytes, and with the same
-- metadata, normalized.
pub published_recovered :
    (m : DiskMedium) (os : Os) (g : Generation) (h : Home) (d : Bytes) (o : Option Files)
    → m.fsync ≡ true
    → IsJson m.json
    → IsSynced h d
    → IsRecordable m g d
    → (finalize m os g h).2 ≡ none
    → Crashed (finalize m os g h).0 o
    → (f : Files) × (o ≡ some f)
      × (c : Candidate) × ((verify : Bool) → fate m verify granted (id_string g.id) f ≡ keep c)
      × ((t : Tree) → files_in t (id_string g.id) ≡ f → to_recovered t c ≡ recovered_of g d)
published_recovered m os g h d o s j y w a x =
    let (mf, b, e, v, last) = finalize_survives m os g h d s y a in
    let (sum, q, u, k, short) = stamped_lem m os g h d mf y e in
    let (f, z, p) = last o x in
    let v' : m.json.marshal (record (record_of g) { checksum = sum }) ≡ inl b =
      sym (ap m.json.marshal q) ∙ v in
    let c = candidate g.id (record (record_of g) { checksum = sum }) (length d) in
    (
      f,
      z,
      c,
      λ verify.
          (fate_keep_iff m verify (id_string g.id) f c).1
            (stamped-IsSound m g d sum b verify f j w u k short v' p),
      λ t e. stamped-to_recovered g d sum t f (ap (λ n. n file_data) e ∙ p.bytes_there),
    )
