-- ===== src/Store/Restored.antt =====
-- store/recovery.go (`restore`): every survivor is the value of its name.
use mathlib.Core.List.{Memᴰ}
use mathlib.Core.List.Memᴰ.{head, tail}
use buff.Common.{
  ℕ, ◌+◌, ◌-◌, ◌<◌, ◌≡◌, ◌≢◌, refl, sym, ap, subst, inl, inr, true, false, none, some, List, [],
  ◌∷◌, Bytes, arith, bytes_eq, bytes_eq_refl, bytes_eq_sound, Bool-cases, add64,
}
use buff.Store.Quota.{Config, restore_quota}
use buff.Buffer.{new_sealed_buffer}
use buff.Store.Generation.{Generation, finalized, blank_ttl}
use buff.Store.State.{
  update, Store, new_store, new_handle, acquire, or_new, find_handle, release_handle, put_handle,
}
use buff.Store.Restore.{Recovered, sealed_generation, seal, restore_one, restore_from, restore}
use buff.Store.Scan.Grouping.{Distinct}
use buff.Store.Scan.Contest.{names_of}

-- A generation that has everything of the survivor: it is finalized and held, no writer's TTL is
-- left to run, and its log is closed, whole, and holds the survivor's bytes.
pub record IsRebuilt (g : Generation) (r : Recovered) : Type 0 where
  pub same_id : g.id ≡ r.id
  pub same_name : g.name ≡ r.name
  pub same_metadata : g.metadata ≡ r.metadata
  pub same_created : g.created ≡ r.created
  pub same_finalized_at : g.finalized_at ≡ r.finalized_at
  pub same_expires : g.expires ≡ r.expires
  pub same_consume : g.consume ≡ r.consume
  pub is_final : g.state ≡ finalized
  pub is_held : g.home ≡ true
  pub no_ttl : g.ttl ≡ 0
  pub same_bytes : g.buf.stored ≡ r.stored
  pub same_size : g.buf.size ≡ r.size
  pub is_closed : g.buf.closed ≡ true
  pub not_torn : g.buf.aborted ≡ false

sealed-IsRebuilt : (r : Recovered) → IsRebuilt (sealed_generation r) r
unfolding new_sealed_buffer
sealed-IsRebuilt r = record {
  same_id = refl;
  same_name = refl;
  same_metadata = refl;
  same_created = refl;
  same_finalized_at = refl;
  same_expires = refl;
  same_consume = refl;
  is_final = refl;
  is_held = refl;
  no_ttl = blank_ttl;
  same_bytes = refl;
  same_size = refl;
  is_closed = refl;
  not_torn = refl;
}

-- The name's handle has the survivor as its current generation.
pub record Serves (s : Store) (r : Recovered) : Type 0 where
  pub handle : ℕ
  pub gen : ℕ
  pub found : find_handle r.name s.table ≡ some handle
  pub pointed : (s.handles handle).current ≡ some gen
  pub no_writer : (s.handles handle).live ≡ none
  pub seeded : (s.handles handle).last_prefix ≡ r.id.prefix
  pub rebuilt : IsRebuilt (s.heap gen) r
  pub handle_allocated : handle < s.next_handle
  pub gen_allocated : gen < s.next_gen

release_kept :
    (s : Store) (h g : ℕ)
    → (s.handles h).current ≡ some g
    → release_handle s h
      ≡ put_handle s h (record (s.handles h) { leases = (s.handles h).leases - 1 })
unfolding release_handle
release_kept s h g e = ground (arith, e)

-- The store after a survivor of a new name was restored.
abbrev added : Store → Recovered → Store
added s r = release_handle (seal (or_new none s r.name).0 s.next_handle r) s.next_handle

added_table :
    (s : Store) (r : Recovered)
    → ((added s r).table ≡ (r.name, s.next_handle) ∷ s.table)
      × ((added s r).next_handle ≡ s.next_handle + 1)
      × ((added s r).next_gen ≡ s.next_gen + 1)
unfolding seal new_handle
added_table s r =
    let t = seal (or_new none s r.name).0 s.next_handle r in
    let e : (t.handles s.next_handle).current ≡ some s.next_gen = ground arith in
    let q = release_kept t s.next_handle s.next_gen e in rw q (refl, refl, refl)

update_here : (h : ℕ → Generation) (i : ℕ) (v : Generation) → update h i v i ≡ v
update_here h i v = ground arith

added_new : (s : Store) (r : Recovered) → Serves (added s r) r
unfolding seal new_handle find_handle
added_new s r =
    let t = seal (or_new none s r.name).0 s.next_handle r in
    let e : (t.handles s.next_handle).current ≡ some s.next_gen = ground arith in
    let q = release_kept t s.next_handle s.next_gen e in
    rw q (record {
      handle = s.next_handle;
      gen = s.next_gen;
      found = rw (bytes_eq_refl r.name) refl;
      pointed = ground arith;
      no_writer = ground arith;
      seeded = ground arith;
      rebuilt =
          subst (λ c. IsRebuilt c r) (sym (update_here s.heap s.next_gen (sealed_generation r)))
            (sealed-IsRebuilt r);
      handle_allocated = omega arith;
      gen_allocated = omega arith;
    })

update_ne :
    (s : Store) (g : ℕ) (x : Recovered) (v : Generation)
    → g < s.next_gen
    → IsRebuilt (s.heap g) x
    → IsRebuilt (update s.heap s.next_gen v g) x
update_ne s g x v l w =
    let e : update s.heap s.next_gen v g ≡ s.heap g = ground (arith, l) in
    subst (λ c. IsRebuilt c x) (sym e) w

added_old :
    (s : Store) (r x : Recovered)
    → bytes_eq r.name x.name ≡ false
    → Serves s x
    → Serves (added s r) x
unfolding seal new_handle find_handle
added_old s r x b w =
    let t = seal (or_new none s r.name).0 s.next_handle r in
    let e : (t.handles s.next_handle).current ≡ some s.next_gen = ground arith in
    let q = release_kept t s.next_handle s.next_gen e in
    rw q (record {
      handle = w.handle;
      gen = w.gen;
      found = rw b w.found;
      pointed = ground (arith, w.handle_allocated, w.pointed);
      no_writer = ground (arith, w.handle_allocated, w.no_writer);
      seeded = ground (arith, w.handle_allocated, w.seeded);
      rebuilt = update_ne s w.gen x (sealed_generation r) w.gen_allocated w.rebuilt;
      handle_allocated = omega (arith, w.handle_allocated);
      gen_allocated = omega (arith, w.gen_allocated);
    })

restore_one-added :
    (s : Store) (r : Recovered) → find_handle r.name s.table ≡ none → restore_one s r ≡ added s r
unfolding restore_one acquire
restore_one-added s r e = rw (e, acquire) refl

-- None of these names has a handle.
abbrev Unused : Store → List Recovered → Type 0
Unused s survivors = (n : Bytes) → Memᴰ n (names_of survivors) → find_handle n s.table ≡ none

differ : (k n : Bytes) → k ≢ n → bytes_eq k n ≡ false
differ k n f = elim (Bool-cases (bytes_eq k n)) [
  | inr b ↦ b
  | inl b ↦ absurd (f (bytes_eq_sound k n b))
]

added-Unused :
    (s : Store) (r : Recovered) (rest : List Recovered)
    → ¬ Memᴰ r.name (names_of rest)
    → Unused s (r ∷ rest)
    → Unused (added s r) rest
unfolding find_handle
added-Unused s r rest f u n m =
    let (q, x, y) = added_table s r in
    rw (q, differ r.name n (λ e. f (subst (λ k. Memᴰ k (names_of rest)) (sym e) m))) (u n (tail m))

restore_from_old :
    (s : Store) (b : ℕ) (survivors : List Recovered) (x : Recovered)
    → Distinct (names_of survivors)
    → Unused s survivors
    → ¬ Memᴰ x.name (names_of survivors)
    → Serves s x
    → Serves (restore_from s b survivors).0 x
unfolding restore_from
restore_from_old s b [] x d u f w = w
restore_from_old s b (r ∷ rest) x (g, d) u f w =
    let q = restore_one-added s r (u r.name (head refl)) in
    let other : bytes_eq r.name x.name ≡ false = differ r.name x.name (λ e. f (head (sym e))) in
    subst (λ t. Serves (restore_from t (add64 b r.size) rest).0 x) (sym q)
      (restore_from_old (added s r) (add64 b r.size) rest x d (added-Unused s r rest g u)
        (λ m. f (tail m)) (added_old s r x other w))

name_Memᴰ :
    {r : Recovered} {survivors : List Recovered}
    → Memᴰ r survivors
    → Memᴰ r.name (names_of survivors)
name_Memᴰ {survivors = []} m = elim m [ ]
name_Memᴰ {survivors = s ∷ survivors} (head e) = head (ap (λ (x : Recovered). x.name) e)
name_Memᴰ {survivors = s ∷ survivors} (tail m) = tail (name_Memᴰ {survivors = survivors} m)

restore_from_new :
    (s : Store) (b : ℕ) (survivors : List Recovered) (x : Recovered)
    → Distinct (names_of survivors)
    → Unused s survivors
    → Memᴰ x survivors
    → Serves (restore_from s b survivors).0 x
unfolding restore_from
restore_from_new s b [] x d u m = elim m [ ]
restore_from_new s b (r ∷ rest) x (g, d) u (head e) =
    let q = restore_one-added s r (u r.name (head refl)) in
    let w : Serves (added s r) x = subst (Serves (added s r)) (sym e) (added_new s r) in
    let f : ¬ Memᴰ x.name (names_of rest) = λ m. g (subst (λ y. Memᴰ y.name (names_of rest)) e m) in
    subst (λ t. Serves (restore_from t (add64 b r.size) rest).0 x) (sym q)
      (restore_from_old (added s r) (add64 b r.size) rest x d (added-Unused s r rest g u) f w)
restore_from_new s b (r ∷ rest) x (g, d) u (tail m) =
    let q = restore_one-added s r (u r.name (head refl)) in
    subst (λ t. Serves (restore_from t (add64 b r.size) rest).0 x) (sym q)
      (restore_from_new (added s r) (add64 b r.size) rest x d (added-Unused s r rest g u) m)

-- A store that is rebuilt from survivors of distinct names serves every one of them: the name has a
-- handle with no open writer, the seed of the name's ids is the prefix of the survivor's id, and the
-- handle's current generation is finalized, held, and agrees with the survivor in its id, its name,
-- its metadata, its creation, its finalization, its expiry and its consume flag; its log is closed
-- and not torn, of the survivor's size, and holds the survivor's bytes.
pub restored-Serves :
    (c : Config) (survivors : List Recovered) (r : Recovered)
    → Distinct (names_of survivors)
    → Memᴰ r survivors
    → Serves (restore (new_store c) survivors) r
unfolding restore restore_quota new_store find_handle
restored-Serves c survivors r d m =
    let w = restore_from_new (new_store c) 0 survivors r d (λ n k. refl) m in
    record {
      handle = w.handle;
      gen = w.gen;
      found = w.found;
      pointed = w.pointed;
      no_writer = w.no_writer;
      seeded = w.seeded;
      rebuilt = w.rebuilt;
      handle_allocated = w.handle_allocated;
      gen_allocated = w.gen_allocated;
    }
