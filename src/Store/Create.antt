-- ===== src/Store/Create.antt =====
-- store/store.go (`Create`, `createOnce`): a new live generation of a name.
use buff.Common.{
  ℕ, ◌+◌, Bool, true, false, not, ◌&&◌, ◌||◌, Option, none, some, ◌⊎◌, inl, inr, [], ◌++◌, Bytes,
  codes, bytes_eq, is_some, if◌then◌else◌, slt64,
}
use buff.Clip.Errors.{Error, is, no_space, busy, precondition_failed, wrap}
use buff.Clip.Name.{valid_name}
use buff.Clip.Meta.{Meta, Clip, normalized}
use buff.Buffer.{new_buffer}
use buff.Store.GenId.{allocate, id_string}
use buff.Store.Quota.{reserve_clip, release_clip}
use buff.Store.Generation.{Generation, live, blank_generation}
use buff.Store.State.{Store, put_handle, put_gen, acquire, release_handle}
use buff.Store.Medium.{Medium}
use buff.Store.Gate.{transition_result}
use buff.Store.Resolve.{present_current}
use buff.Store.Reaper.{reclaim_expired}

pub record PutOpts : Type 0 where
  pub ttl : ℕ
  pub keep : Bool
  pub consume_once : Bool
  pub if_match : Bytes

-- `writer`: the handle and the generation are cells of the store's heaps.
pub record Writer : Type 0 where
  pub handle : ℕ
  pub gen : ℕ
  pub written : ℕ
  pub done : Bool
  pub framing : Clip

unfoldable pub resolve_ttl : Store → PutOpts → ℕ
resolve_ttl s o = if o.keep then 0 else if slt64 0 o.ttl then o.ttl else s.default_ttl

abbrev pub star : Bytes
star = codes "*"

-- Whether the token names the current value.
abbrev pub matches : Store → Option ℕ → Bytes → Bool
matches s none token = false
matches s (some g) token = bytes_eq token star || bytes_eq (id_string (s.heap g).id) token

abbrev pub create_error : Bytes → Error → Error
create_error name e = wrap (codes "create " ++ name) e

abbrev pub install : Store → ℕ → Generation → Store
install s h g =
    record (put_handle (put_gen s s.next_gen g) h
      (record (s.handles h) { live = some s.next_gen; last_prefix = g.id.prefix })) {
        next_gen = s.next_gen + 1;
      }

-- After the count was reserved: the id, the medium's buffer, the generation.
unfoldable pub mint :
    Medium → ℕ → ℕ ⊎ Error → ℕ → Bytes → Meta → PutOpts → Store → Store × (ℕ ⊎ Error) × Bool
unfolding allocate resolve_ttl release_clip new_buffer
mint k now random h name m o s =
    let refund = record s { quota = release_clip s.quota } in
    elim (allocate now random (s.handles h).last_prefix) [
      | inr e ↦ (refund, inr (create_error name e), false)
      | inl (id, seed) ↦ elim (k.create id) [
        | some e ↦ (
          put_handle refund h (record (s.handles h) { last_prefix = seed }),
          inr (create_error name e),
          false,
        )
        | none ↦ (
          install s h (record blank_generation {
            id = id;
            name = name;
            metadata = m;
            created = now;
            ttl = resolve_ttl s o;
            consume = o.consume_once;
            state = live;
            buf = new_buffer;
            home = true;
          }),
          inl s.next_gen,
          true,
        )
      ]
    ]

-- The closure of `createOnce`: the precondition, then the single live writer, then the count.
unfoldable pub admit :
    Medium → ℕ → ℕ ⊎ Error → ℕ → Bytes → Meta → PutOpts → Store → Store × (ℕ ⊎ Error) × Bool
unfolding present_current reserve_clip
admit k now random h name m o s =
    if not (bytes_eq o.if_match []) && not (matches s (present_current s h now) o.if_match)
    then (s, inr precondition_failed, false)
    else if is_some (s.handles h).live
    then (s, inr busy, false)
    else if not (reserve_clip s.quota).1
    then (s, inr no_space, false)
    else mint k now random h name m o (record s { quota = (reserve_clip s.quota).0 })

abbrev pub blank_clip : Clip
blank_clip = record {
  name = [];
  generation = [];
  metadata = record { kind = []; filename = []; executable = false };
  size = 0;
  created_at = 0;
  finalized_at = none;
  expires_at = none;
  consume_once = false;
  finalized = false;
}

abbrev pub created : Store → ℕ → ℕ ⊎ Error → Store × (Writer ⊎ Error)
created s h (inl g) =
    (s, inl (record { handle = h; gen = g; written = 0; done = false; framing = blank_clip }))
created s h (inr e) = (release_handle s h, inr e)

unfoldable pub create_once :
    Medium → ℕ → ℕ ⊎ Error → Bytes → Meta → PutOpts → Store → Store × (Writer ⊎ Error)
unfolding valid_name acquire admit transition_result release_handle
create_once k now random name m o s = elim (valid_name name) [
  | some e ↦ (s, inr e)
  | none ↦
      let (s₁, h) = acquire s name in
      let (s₂, r) = transition_result s₁ h (admit k now random h name (normalized m) o) in
      created s₂ h r
]

abbrev pub is_full : Writer ⊎ Error → Bool
is_full (inl w) = false
is_full (inr e) = is e no_space

-- What the clock and the random source answer, in the order in which `Create` asks.
pub record CreateInputs : Type 0 where
  pub now : ℕ
  pub random : ℕ ⊎ Error
  pub sweep_now : ℕ
  pub retry_now : ℕ
  pub retry_random : ℕ ⊎ Error

-- `Create`: one sweep and one retry if the store is full.
unfoldable pub create :
    Medium → CreateInputs → Bytes → Meta → PutOpts → Store → Store × (Writer ⊎ Error)
unfolding create_once reclaim_expired
create k i name m o s =
    let (s₁, r) = create_once k i.now i.random name m o s in
    if is_full r
    then (let (s₂, freed) = reclaim_expired k s₁ i.sweep_now in
        if freed then create_once k i.retry_now i.retry_random name m o s₂ else (s₂, r))
    else (s₁, r)
