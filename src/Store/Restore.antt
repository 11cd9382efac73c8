-- ===== src/Store/Restore.antt =====
-- store/recovery.go (`restore`): the store rebuilt from what the scan of the disk found.
use buff.Common.{
  ℕ, ◌+◌, ◌%◌, ◌≡◌, refl, Bool, true, Option, some, List, [], ◌∷◌, Bytes, arith, length, word,
  add64, ◌<◌,
}
use buff.Clip.Meta.{Meta}
use buff.Buffer.{new_sealed_buffer}
use buff.Store.GenId.{GenId}
use buff.Store.Quota.{Config, restore_quota, new_quota}
use buff.Store.Generation.{Generation, blank_generation, finalized}
use buff.Store.State.{Store, new_store, acquire, release_handle, put_gen, put_handle}
use buff.Store.Accounting.{total-update_new, held_bytes, held_clips}
use buff.Store.Invariant.{Inv, Drops, Drops-Inv}
use buff.Store.Invariant.Registry.{acquire-Drops, release_handle-Drops}
use buff.Store.History.{Reach, here, next, Call-Inv, new_store-Inv}

-- `stored` is what the opener reads.
pub record Recovered : Type 0 where
  pub id : GenId
  pub name : Bytes
  pub metadata : Meta
  pub created : ℕ
  pub finalized_at : Option ℕ
  pub expires : Option ℕ
  pub consume : Bool
  pub size : ℕ
  pub stored : Bytes

-- The generation of a survivor, finished at birth.
abbrev pub sealed_generation : Recovered → Generation
sealed_generation r = record blank_generation {
  id = r.id;
  name = r.name;
  metadata = r.metadata;
  created = r.created;
  finalized_at = r.finalized_at;
  expires = r.expires;
  consume = r.consume;
  state = finalized;
  buf = new_sealed_buffer r.stored r.size;
  home = true;
}

unfoldable pub seal : Store → ℕ → Recovered → Store
seal s h r =
    record (put_handle (put_gen s s.next_gen (sealed_generation r)) h
      (record (s.handles h) { current = some s.next_gen; last_prefix = r.id.prefix })) {
        next_gen = s.next_gen + 1;
      }

unfoldable pub restore_one : Store → Recovered → Store
unfolding acquire seal release_handle
restore_one s r = let (t, h) = acquire s r.name in release_handle (seal t h r) h

-- The loop: the store, and the sum of the sizes as int64 adds them.
unfoldable pub restore_from : Store → ℕ → List Recovered → Store × ℕ
unfolding restore_one
restore_from s bytes [] = (s, bytes)
restore_from s bytes (r ∷ rest) = restore_from (restore_one s r) (add64 bytes r.size) rest

abbrev pub tally : Store → ℕ → ℕ → Store
tally s bytes clips = record s { quota = restore_quota s.quota bytes clips }

unfoldable pub restore : Store → List Recovered → Store
unfolding restore_from restore_quota
restore s survivors =
    let (t, bytes) = restore_from s 0 survivors in tally t bytes (length survivors % word)

tally-Drops : {s t : Store} (b n : ℕ) → Drops s t → Drops (tally s b n) (tally t b n)
unfolding restore_quota
tally-Drops b n d = record {
  same_heap = d.same_heap;
  same_next = d.same_next;
  same_bytes = refl;
  same_clips = refl;
  current_kept = d.current_kept;
  live_kept = d.live_kept;
}

seal-Inv :
    (s : Store) (h : ℕ) (r : Recovered) (b n : ℕ)
    → Inv (tally s b n)
    → Inv (tally (seal s h r) (add64 b r.size) ((n + 1) % word))
unfolding seal restore_quota new_sealed_buffer
seal-Inv s h r b n v = record {
  current_gen = λ j c p. ground (arith, v.current_gen j c);
  live_gen = λ j c p. ground (arith, v.live_gen j c);
  current_once =
      λ j i c p q. ground (arith, v.current_once j i c, v.current_gen j c, v.current_gen i c);
  live_once = λ j i c p q. ground (arith, v.live_once j i c);
  bytes_held =
      ground
        (arith, v.bytes_held, total-update_new held_bytes s.heap s.next_gen (sealed_generation r));
  clips_held =
      ground
        (arith, v.clips_held, total-update_new held_clips s.heap s.next_gen (sealed_generation r));
}

restore_one-Inv :
    (s : Store) (r : Recovered) (b n : ℕ)
    → Inv (tally s b n)
    → Inv (tally (restore_one s r) (add64 b r.size) ((n + 1) % word))
unfolding restore_one
restore_one-Inv s r b n v =
    let (t, h) = acquire s r.name in
    let a = Drops-Inv (tally-Drops b n (acquire-Drops s r.name)) v in
    Drops-Inv (tally-Drops (add64 b r.size) ((n + 1) % word) (release_handle-Drops (seal t h r) h))
      (seal-Inv t h r b n a)

restore_from-Inv :
    (s : Store) (survivors : List Recovered) (b n m : ℕ)
    → n < word
    → m ≡ (n + length survivors) % word
    → Inv (tally s b n)
    → let r = restore_from s b survivors in Inv (tally r.0 r.1 m)
unfolding restore_from
restore_from-Inv s [] b n m h e v = let q : m ≡ n = omega (arith, h, e) in rw q v
restore_from-Inv s (r ∷ rest) b n m h e v =
    restore_from-Inv (restore_one s r) rest (add64 b r.size) ((n + 1) % word) m (omega arith)
      (omega (arith, e)) (restore_one-Inv s r b n v)

pub restore-Inv : (c : Config) (survivors : List Recovered) → Inv (restore (new_store c) survivors)
unfolding restore
restore-Inv c survivors =
    restore_from-Inv (new_store c) survivors 0 0 (length survivors % word) (omega arith)
      (omega arith) (unfold new_store new_quota restore_quota in new_store-Inv c)

-- A store that is rebuilt from any survivors of a scan starts with the accounts in order, and any
-- sequence of calls keeps them: the quota's counters are the bytes and the number of the
-- generations that are held, modulo 2 ^ 64, and each value and each writer has its bytes.
pub Reach-restored :
    (c : Config) (survivors : List Recovered) {t : Store}
    → Reach (restore (new_store c) survivors) t
    → Inv t
Reach-restored c survivors here = restore-Inv c survivors
Reach-restored c survivors (next r m) = Call-Inv m (Reach-restored c survivors r)
