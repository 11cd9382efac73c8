-- ===== src/Store/State.antt =====
-- The state of a store: store/store.go (`store`) and store/registry.go. Handles and generations are
-- cells of two heaps, so that a writer, a reader and a handle share what Go shares by a pointer.
use buff.Common.{
  ℕ, ◌+◌, ◌-◌, Bool, Option, none, some, List, [], ◌∷◌, Bytes, bytes_eq, ◌==◌, if◌then◌else◌, ◌&&◌,
  is_some, not,
}
use buff.Store.Quota.{Quota, Config, new_quota}
use buff.Store.Generation.{Generation, blank_generation}

-- `clipHandle`. `notify` numbers the gate's channel: closing it and making the next adds 1.
pub record Handle : Type 0 where
  pub name : Bytes
  pub leases : ℕ
  pub current : Option ℕ
  pub live : Option ℕ
  pub last_prefix : ℕ
  pub notify : ℕ

unfoldable pub new_handle : Bytes → Handle
new_handle name = record {
  name = name;
  leases = 0;
  current = none;
  live = none;
  last_prefix = 0;
  notify = 0;
}

module _ {ℓ} {A : Type ℓ} where
  abbrev pub update : (ℕ → A) → ℕ → A → ℕ → A
  update h i v j = if i == j then v else h j

-- `table` is the registry's map; cells from `next_handle` and `next_gen` on are not allocated.
pub record Store : Type 0 where
  pub table : List (Bytes × ℕ)
  pub handles : ℕ → Handle
  pub next_handle : ℕ
  pub heap : ℕ → Generation
  pub next_gen : ℕ
  pub quota : Quota
  pub default_ttl : ℕ
  pub last_reclaim : ℕ

unfoldable pub new_store : Config → Store
unfolding new_quota new_handle
new_store c = record {
  table = [];
  handles = λ h. new_handle [];
  next_handle = 0;
  heap = λ g. blank_generation;
  next_gen = 0;
  quota = new_quota c;
  default_ttl = c.default_ttl;
  last_reclaim = 0;
}

abbrev pub put_handle : Store → ℕ → Handle → Store
put_handle s h v = record s { handles = update s.handles h v }

abbrev pub put_gen : Store → ℕ → Generation → Store
put_gen s g v = record s { heap = update s.heap g v }

unfoldable pub find_handle : Bytes → List (Bytes × ℕ) → Option ℕ
find_handle name [] = none
find_handle name ((key, h) ∷ rest) = if bytes_eq key name then some h else find_handle name rest

unfoldable pub delete_name : Bytes → List (Bytes × ℕ) → List (Bytes × ℕ)
delete_name name [] = []
delete_name name ((key, h) ∷ rest) =
    if bytes_eq key name then delete_name name rest else (key, h) ∷ delete_name name rest

abbrev pub lease : Store → ℕ → Store
lease s h = put_handle s h (record (s.handles h) { leases = (s.handles h).leases + 1 })

abbrev pub or_new : Option ℕ → Store → Bytes → Store × ℕ
or_new (some h) s name = (lease s h, h)
or_new none s name =
    let h = s.next_handle in
    let s' = record (put_handle s h (record (new_handle name) { leases = 1 })) {
      table = (name, h) ∷ s.table;
      next_handle = h + 1;
    } in
    (s', h)

-- `registry.acquire`
unfoldable pub acquire : Store → Bytes → Store × ℕ
unfolding find_handle new_handle
acquire s name = or_new (find_handle name s.table) s name

abbrev is_empty : Handle → Bool
is_empty h = not (is_some h.current) && not (is_some h.live)

-- `registry.release`. A lease is dropped only by its holder, so `leases` is not 0 here.
unfoldable pub release_handle : Store → ℕ → Store
unfolding delete_name
release_handle s h =
    let s' = put_handle s h (record (s.handles h) { leases = (s.handles h).leases - 1 }) in
    if (s'.handles h).leases == 0 && is_empty (s'.handles h)
    then record s' { table = delete_name (s'.handles h).name s'.table }
    else s'

abbrev addresses : List (Bytes × ℕ) → List ℕ
addresses [] = []
addresses ((key, h) ∷ rest) = h ∷ addresses rest

-- `registry.snapshot`: the map's order is unspecified in Go, and the table's here.
unfoldable pub snapshot : Store → List ℕ
snapshot s = addresses s.table
