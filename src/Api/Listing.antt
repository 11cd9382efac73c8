-- ===== src/Api/Listing.antt =====
-- api/dto.go and api/handlers.go (`list`): the document of a listing, up to its JSON.
pub mod Sorting
use mathlib.Core.List.{map}
use buff.Common.{
  ℕ, Bool, true, false, ◌&&◌, ◌||◌, ◌==◌, Option, none, some, List, [], ◌∷◌, Bytes, codes, ltb,
  if◌then◌else◌,
}
use buff.Clip.Meta.{Clip}
use buff.Store.State.{Store}
use buff.Store.Manage.{list}
use buff.Wire.Responses.{Clock}

-- `wireClip`: an expiry of "" is omitted.
pub record WireClip : Type 0 where
  pub name : Bytes
  pub generation : Bytes
  pub kind : Bytes
  pub filename : Bytes
  pub executable : Bool
  pub size : ℕ
  pub created_at : Bytes
  pub finalized_at : Bytes
  pub expires_at : Bytes
  pub consume_once : Bool

-- `Format` of an instant, of which `none` is Go's zero time.
abbrev pub format_instant : Clock → Option ℕ → Bytes
format_instant k none = codes "0001-01-01T00:00:00Z"
format_instant k (some t) = k.format_time t

abbrev pub format_expiry : Clock → Option ℕ → Bytes
format_expiry k none = []
format_expiry k (some t) = k.format_time t

unfoldable pub to_wire : Clock → Clip → WireClip
to_wire k c = record {
  name = c.name;
  generation = c.generation;
  kind = c.metadata.kind;
  filename = c.metadata.filename;
  executable = c.metadata.executable;
  size = c.size;
  created_at = k.format_time c.created_at;
  finalized_at = format_instant k c.finalized_at;
  expires_at = format_expiry k c.expires_at;
  consume_once = c.consume_once;
}

-- `cmp.Compare` of two strings is at most 0.
unfoldable pub bytes_leb : Bytes → Bytes → Bool
bytes_leb [] t = true
bytes_leb (a ∷ s) [] = false
bytes_leb (a ∷ s) (b ∷ t) = ltb a b || (a == b && bytes_leb s t)

unfoldable pub insert_by_name : WireClip → List WireClip → List WireClip
unfolding bytes_leb
insert_by_name c [] = c ∷ []
insert_by_name c (d ∷ ds) =
    let rest = insert_by_name c ds in if bytes_leb c.name d.name then c ∷ d ∷ ds else d ∷ rest

-- `slices.SortFunc` by name; what it does to equal names is unspecified.
unfoldable pub sort_by_name : List WireClip → List WireClip
unfolding insert_by_name
sort_by_name [] = []
sort_by_name (c ∷ cs) = insert_by_name c (sort_by_name cs)

-- `list`: the clips of the envelope.
unfoldable pub listed : Clock → Store → ℕ → List WireClip
unfolding sort_by_name list to_wire
listed k s now = sort_by_name (map (to_wire k) (list s now))
