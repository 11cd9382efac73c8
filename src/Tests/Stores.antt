-- ===== src/Tests/Stores.antt =====
-- A secret that is created, finalized and read, on a new store in memory.
use buff.Common.{
  ℕ, ◌+◌, ◌<◌, ◌≤◌, ◌≡◌, refl, ◌≢◌, ◌↔◌, ◌⊎◌, inl, true, false, none, some, [], Bytes, codes, arith,
  bytes_eq,
}
use buff.Clip.Meta.{Meta, Clip, kind_bytes, normalized}
use buff.Buffer.{memory_backing}
use buff.Store.GenId.{GenId, zero_id, allocate, is_after, allocate_after, id_string}
use buff.Store.Quota.{Config, Quota, reserve, release, reserve_within, release-reserve}
use buff.Store.Generation.{clip_of}
use buff.Store.State.{Store, new_store}
use buff.Store.Medium.{memory_medium}
use buff.Store.Gate.{await_turn}
use buff.Store.Resolve.{
  resolve_read, resolve_read_iff, ReadSpec, follow_resolve, follow_resolve_skips, IsCurrentValue,
  IsOpenLog,
}
use buff.Store.Create.{PutOpts, Writer, CreateInputs, create, blank_clip, mint}
use buff.Store.Writer.{close}
use buff.Store.Open.{OpenCall, opened, LeasedReader, open_turn, resolve, capture, commit_read}
use buff.Store.Invariant.Writing.{Owns}
use buff.Store.History.{Reach, here, next, creates, closes}
use buff.Store.Delivery.{delivered_once}

abbrev pub config : Config
config = record { max_clip = 100; max_total = 1000; max_clips = 4; default_ttl = 0 }

abbrev pub name : Bytes
name = codes "k"

abbrev pub plain : Meta
plain = record { kind = kind_bytes; filename = []; executable = false }

abbrev pub secret_opts : PutOpts
secret_opts = record { ttl = 0; keep = false; consume_once = true; if_match = [] }

abbrev pub inputs : CreateInputs
inputs = record { now = 5; random = inl 9; sweep_now = 5; retry_now = 5; retry_random = inl 9 }

abbrev pub with_live : Store
with_live = (create memory_medium inputs name plain secret_opts (new_store config)).0

abbrev pub the_writer : Writer
the_writer = record { handle = 0; gen = 0; written = 0; done = false; framing = blank_clip }

the_writer-Owns : Owns with_live the_writer
unfolding create new_store bytes_eq mint normalized
the_writer-Owns = record { known = omega arith; pointed = refl }

abbrev pub with_value : Store
with_value = (close memory_medium memory_backing with_live the_writer 7).0

to_value : Reach (new_store config) with_value
to_value =
    next (next here (creates memory_medium inputs name plain secret_opts refl))
      (closes memory_medium memory_backing the_writer 7 (λ d. the_writer-Owns) refl)

abbrev call : OpenCall
call = record {
  handle = 0;
  name = name;
  opts = record { wait = false; follow_next = false };
  baseline = zero_id;
  captured = false;
}

abbrev reader : LeasedReader
reader = record { handle = 0; gen = 0; cleanup = true; closed = false }

abbrev shown : Clip
shown = record {
  name = name;
  generation = id_string (record { prefix = 5; tail = 9 });
  metadata = plain;
  size = 0;
  created_at = 5;
  finalized_at = some 7;
  expires_at = none;
  consume_once = true;
  finalized = true;
}

secret_opens :
    (open_turn memory_medium memory_backing none false 8 with_value call).1 ≡ opened reader shown
unfolding create new_store close open_turn resolve capture commit_read await_turn id_string clip_of
    bytes_eq mint normalized
secret_opens = refl

-- The reader is still open; a second read of the name follows.
delivered_once_example :
    resolve call 9 (open_turn memory_medium memory_backing none false 8 with_value call).0 ≢ inl 0
delivered_once_example =
    delivered_once config to_value memory_medium memory_backing none false 8 call reader shown
      secret_opens refl here call 9

resolve_read_iff_example : (resolve_read with_value 0 8 ≡ inl 0) ↔ ReadSpec with_value 0 8 (inl 0)
resolve_read_iff_example = resolve_read_iff with_value 0 8 (inl 0)

follow_resolve_skips_example :
    (IsCurrentValue with_value 0 8 0 × (is_after (with_value.heap 0).id zero_id ≡ true))
    ⊎ IsOpenLog with_value 0 0
unfolding create new_store close follow_resolve bytes_eq mint
follow_resolve_skips_example = follow_resolve_skips with_value 0 8 0 zero_id refl

allocate_after_example :
    (id : GenId) × (seed : ℕ) × (allocate 3 (inl 1) 50 ≡ inl (id, seed))
    × (is_after id (record { prefix = 50; tail = 7 }) ≡ true)
    × (id.prefix ≡ seed)
    × (50 < seed)
allocate_after_example =
    allocate_after 3 50 1 (record { prefix = 50; tail = 7 }) (omega arith) (omega arith)
      (omega arith)

abbrev filled : Quota
filled = record { max_clip = 0; max_total = 100; max_clips = 0; bytes = 60; clips = 1 }

reserve_within_example :
    ((60 + 50 ≤ 100) × (reserve filled 50 ≡ (record filled { bytes = 60 + 50 }, true)))
    ⊎ ((100 < 60 + 50) × (reserve filled 50 ≡ (filled, false)))
reserve_within_example = reserve_within filled 50 (omega arith) (omega arith) (omega arith)

release-reserve_example : release (reserve filled 40).0 40 ≡ filled
release-reserve_example =
    release-reserve filled 40 (omega arith) (omega arith) (unfold reserve in refl)
