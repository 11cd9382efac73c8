-- ===== src/Store/Generation.antt =====
-- store/generation.go: one generation of a name, and what of it a reader is shown. Instants are
-- nanoseconds, and a zero `time.Time` is `none`; a ttl is an int64 of nanoseconds.
use buff.Common.{
  ℕ, ◌≡◌, refl, Bool, true, false, not, Option, none, some, Bytes, ltb, if◌then◌else◌, [],
}
use buff.Clip.Meta.{Meta, Clip}
use buff.Buffer.{Buffer, new_buffer}
use buff.Store.GenId.{GenId, zero_id, id_string}

pub data GenState : Type 0 where
  live finalized consumed : GenState

-- The `switch` tests of a state.
abbrev pub is_live : GenState → Bool
is_live live = true
is_live _ = false

abbrev pub is_finalized : GenState → Bool
is_finalized finalized = true
is_finalized _ = false

abbrev pub is_consumed : GenState → Bool
is_consumed consumed = true
is_consumed _ = false

-- `home` is the medium's part: whether it holds the generation's bytes.
pub record Generation : Type 0 where
  pub id : GenId
  pub name : Bytes
  pub metadata : Meta
  pub created : ℕ
  pub ttl : ℕ
  pub finalized_at : Option ℕ
  pub expires : Option ℕ
  pub consume : Bool
  pub state : GenState
  pub buf : Buffer
  pub home : Bool

-- The content of a heap cell that was never allocated.
abbrev pub blank_generation : Generation
unfolding new_buffer
blank_generation = record {
  id = zero_id;
  name = [];
  metadata = record { kind = []; filename = []; executable = false };
  created = 0;
  ttl = 0;
  finalized_at = none;
  expires = none;
  consume = false;
  state = live;
  buf = new_buffer;
  home = false;
}

pub blank_ttl : blank_generation.ttl ≡ 0
unfolding blank_generation
blank_ttl = refl

-- `clip`: expiry and the finalize instant are shown only once the generation is not live.
unfoldable pub clip_of : Generation → Clip
clip_of g =
    let done = not (is_live g.state) in
    record {
      name = g.name;
      generation = id_string g.id;
      metadata = g.metadata;
      size = g.buf.size;
      created_at = g.created;
      finalized_at = if done then g.finalized_at else none;
      expires_at = if done then g.expires else none;
      consume_once = g.consume;
      finalized = done;
    }

abbrev pub past : Option ℕ → ℕ → Bool
past none now = false
past (some deadline) now = ltb deadline now

unfoldable pub expired : Generation → ℕ → Bool
expired g now = past g.expires now
