-- ===== src/Store/Scan/Classify/Sound.antt =====
-- store/recovery.go (`classify`): a directory is kept exactly when it holds a sound generation.
use buff.Common.{
  ℕ, ◌≡◌, ◌≢◌, refl, subst, sym, ap, ◌∙◌, ◌⊎◌, inl, inr, Bool, true, false, not, Option, none, some,
  [], Bytes, bytes_eq, bytes_eq_sound, length, take, slt64, if◌then◌else◌, Option-cases, Bool-cases,
}
use buff.Clip.Errors.{Error}
use buff.Clip.Name.{valid_name}
use buff.Store.GenId.{GenId, id_string}
use buff.Store.Recovery.{parse_gen_id}
use buff.Store.Record.{
  MetaFile, Fault, load_meta, load_meta_iff, validate, validate_iff, max_meta_bytes, meta_version,
}
use buff.Store.Disk.{file_data, file_meta}
use buff.Store.Disk.Commit.{DiskMedium, checksum_data, checksum_text}
use buff.Store.Disk.Crash.{Files}
use buff.Store.Scan.Directory.{Faults, OtherError}
use buff.Store.Scan.Classify.{
  Candidate, Fate, keep, set_aside, bad_record, checksum_mismatch, read_meta, verified, checked,
  with_data, named, loaded, read, parsed, fate,
}

-- The checksum is right, where one is recorded and it is verified.
abbrev pub IsIntact : DiskMedium → Bool → Bytes → Bytes → Type 0
IsIntact m verify recorded content =
    verify ≡ true → recorded ≢ [] → recorded ≡ checksum_text (m.crc content)

-- A directory of the id's name with a record that can be read and understood, a valid slot name in
-- it, and the bytes that the record describes.
pub record IsSound (m : DiskMedium) (verify : Bool) (dirname : Bytes) (files : Files)
    (c : Candidate) : Type 0 where
  pub content : Bytes
  pub encoded : Bytes
  pub own_name : parse_gen_id dirname ≡ some c.id
  pub record_there : files file_meta ≡ some encoded
  pub decoded : m.json.unmarshal (take max_meta_bytes encoded) ≡ inl c.mf
  pub understood : slt64 meta_version c.mf.version ≡ false
  pub slot : valid_name c.mf.name ≡ none
  pub data_there : files file_data ≡ some content
  pub own_record : c.mf.generation ≡ id_string c.id
  pub whole : c.mf.size ≡ length content
  pub measured : c.size ≡ length content
  pub intact : IsIntact m verify c.mf.checksum content

pub keep_inj : (c d : Candidate) → keep c ≡ keep d → c ≡ d
keep_inj c d e = cc

kept_unless :
    (b : Bool) (f : Fate) (c d : Candidate)
    → ((g : Candidate) → f ≢ keep g)
    → (if not b then f else keep c) ≡ keep d
    → (b ≡ true) × (c ≡ d)
kept_unless true f c d n e = (refl, keep_inj c d e)
kept_unless false f c d n e = absurd (n d e)

verified_sound :
    (x : Bytes ⊎ Error) (c d : Candidate)
    → verified x c ≡ keep d
    → (c ≡ d) × (x ≡ inl c.mf.checksum)
verified_sound (inr x) c d e = cc
verified_sound (inl sum) c d e =
    let (b, q) =
      kept_unless (bytes_eq sum c.mf.checksum) (set_aside checksum_mismatch) c d (λ g p. cc) e in
    (q, ap inl (bytes_eq_sound sum c.mf.checksum b))

pub checksum_data_sound :
    (m : DiskMedium) (err : Option Error) (content sum : Bytes)
    → checksum_data m err (some content) ≡ inl sum
    → sum ≡ checksum_text (m.crc content)
unfolding checksum_data
checksum_data_sound m (some x) content sum e = cc
checksum_data_sound m none content sum e = cc

checked_sound :
    (m : DiskMedium) (verify : Bool) (io : Faults) (content : Bytes) (c d : Candidate)
    → checked m verify io content c ≡ keep d
    → (c ≡ d) × IsIntact m verify c.mf.checksum content
checked_sound m false io content c d e = (keep_inj c d e, λ v. cc)
checked_sound m true io content c d e = elim (Bool-cases (bytes_eq c.mf.checksum [])) [
  | inl b ↦
      let q : checked m true io content c ≡ keep c = rw b refl in
      (keep_inj c d (sym q ∙ e), λ v n. absurd (n (bytes_eq_sound c.mf.checksum [] b)))
  | inr b ↦
      let x = checksum_data m io.read_data (some content) in
      let q : checked m true io content c ≡ verified x c = rw b refl in
      let (r, p) = verified_sound x c d (sym q ∙ e) in
      (r, λ v n. checksum_data_sound m io.read_data content c.mf.checksum p)
]

abbrev pub candidate : GenId → MetaFile → ℕ → Candidate
candidate id mf n = record { id = id; mf = mf; size = n }

with_data_sound :
    (m : DiskMedium) (verify : Bool) (io : Faults) (id : GenId) (mf : MetaFile)
    (err : Option OtherError) (o : Option Bytes) (d : Candidate)
    → with_data m verify io id mf err o ≡ keep d
    → (content : Bytes) × (o ≡ some content)
      × (candidate id mf (length content) ≡ d)
      × (validate mf id (length content) ≡ none)
      × IsIntact m verify mf.checksum content
with_data_sound m verify io id mf (some x) o d e = cc
with_data_sound m verify io id mf none none d e = cc
with_data_sound m verify io id mf none (some content) d e =
    elim (Option-cases (validate mf id (length content))) [
      | inr (x, v) ↦
          let q : with_data m verify io id mf none (some content) ≡ set_aside (bad_record x) =
            rw v refl in
          cc
      | inl v ↦
          let q : with_data m verify io id mf none (some content)
              ≡ checked m verify io content (candidate id mf (length content)) =
            rw v refl in
          let (r, k) =
            checked_sound m verify io content (candidate id mf (length content)) d (sym q ∙ e) in
          (content, refl, r, v, k)
    ]

named_sound :
    (m : DiskMedium) (verify : Bool) (io : Faults) (id : GenId) (mf : MetaFile) (err : Option Error)
    (o : Option Bytes) (d : Candidate)
    → named m verify io id mf err o ≡ keep d
    → (err ≡ none) × (with_data m verify io id mf io.stat_data o ≡ keep d)
named_sound m verify io id mf (some x) o d e = cc
named_sound m verify io id mf none o d e = (refl, e)

loaded_sound :
    (m : DiskMedium) (verify : Bool) (io : Faults) (id : GenId) (x : MetaFile ⊎ Fault)
    (o : Option Bytes) (d : Candidate)
    → loaded m verify io id x o ≡ keep d
    → (mf : MetaFile) × (x ≡ inl mf)
      × (valid_name mf.name ≡ none)
      × (with_data m verify io id mf io.stat_data o ≡ keep d)
loaded_sound m verify io id (inr x) o d e = cc
loaded_sound m verify io id (inl mf) o d e =
    let (v, r) = named_sound m verify io id mf (valid_name mf.name) o d e in (mf, refl, v, r)

read_sound :
    (m : DiskMedium) (verify : Bool) (io : Faults) (id : GenId) (err : Option OtherError)
    (r o : Option Bytes) (d : Candidate)
    → read m verify io id (read_meta err r) o ≡ keep d
    → (b : Bytes) × (r ≡ some b)
      × (loaded m verify io id (load_meta m.json (take max_meta_bytes b)) o ≡ keep d)
read_sound m verify io id (some x) r o d e = cc
read_sound m verify io id none none o d e = cc
read_sound m verify io id none (some b) o d e = (b, refl, e)

parsed_sound :
    (m : DiskMedium) (verify : Bool) (io : Faults) (p : Option GenId) (f : Files) (d : Candidate)
    → parsed m verify io p f ≡ keep d
    → (id : GenId) × (p ≡ some id)
      × (read m verify io id (read_meta io.read_meta (f file_meta)) (f file_data) ≡ keep d)
parsed_sound m verify io none f d e = cc
parsed_sound m verify io (some id) f d e = (id, refl, e)

loaded-IsSound :
    (m : DiskMedium) (verify : Bool) (io : Faults) (dirname : Bytes) (f : Files) (id : GenId)
    (b t : Bytes) (c : Candidate)
    → parse_gen_id dirname ≡ some id
    → f file_meta ≡ some b
    → take max_meta_bytes b ≡ t
    → loaded m verify io id (load_meta m.json t) (f file_data) ≡ keep c
    → IsSound m verify dirname f c
loaded-IsSound m verify io dirname f id b t c p r same e =
    let (mf, l, v, e') = loaded_sound m verify io id (load_meta m.json t) (f file_data) c e in
    let (content, o, q, w, k) = with_data_sound m verify io id mf io.stat_data (f file_data) c e' in
    let (j, n) = (load_meta_iff m.json t mf).0 l in
    let (g, s) = (validate_iff mf id (length content)).0 w in
    let sound : IsSound m verify dirname f (candidate id mf (length content)) = record {
      content = content;
      encoded = b;
      own_name = p;
      record_there = r;
      decoded = ap m.json.unmarshal same ∙ j;
      understood = n;
      slot = v;
      data_there = o;
      own_record = g;
      whole = s;
      measured = refl;
      intact = k;
    } in
    subst (IsSound m verify dirname f) q sound

-- With any faults of the calls.
pub fate-IsSound :
    (m : DiskMedium) (verify : Bool) (io : Faults) (dirname : Bytes) (f : Files) (c : Candidate)
    → fate m verify io dirname f ≡ keep c
    → IsSound m verify dirname f c
unfolding fate
fate-IsSound m verify io dirname f c e =
    let (id, p, e₁) = parsed_sound m verify io (parse_gen_id dirname) f c e in
    let (b, r, e₂) = read_sound m verify io id io.read_meta (f file_meta) (f file_data) c e₁ in
    loaded-IsSound m verify io dirname f id b (take max_meta_bytes b) c p r refl e₂
