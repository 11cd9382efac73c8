-- ===== src/Client/Listing.antt =====
-- A listing, from the store (api/handlers.go, api/dto.go) to the caller (client/list.go).
use mathlib.Core.List.{map, Perm}
use mathlib.Core.List.Perm
use buff.Common.{ℕ, ◌≡◌, refl, none, some, Option, List, [], ◌∷◌, codes, true, subst, inl}
use buff.Clip.Meta.{Clip, normalized}
use buff.Store.State.{Store}
use buff.Store.Manage.{list}
use buff.Wire.Responses.{Clock, IsClock, whole_seconds}
use buff.Api.Listing.{to_wire, format_expiry, format_instant, listed}
use buff.Api.Listing.Sorting.{IsSorted, listed_lem}
use buff.Client.Meta.{parse_time}
use buff.Client.Receiving.{read_expiry, parse_time_written}
use buff.Client.Requests.{to_clip, Answer, list_result, clips, expect}

-- Go's zero time, which a clock reads back as the zero time.
abbrev pub ReadsZero : Clock → Type 0
ReadsZero k = k.parse_rfc3339 (codes "0001-01-01T00:00:00Z") ≡ none

-- The clip that a listing tells of: its instants are whole seconds.
abbrev pub as_listed : Clip → Clip
as_listed c = record c {
  metadata = normalized c.metadata;
  created_at = whole_seconds c.created_at;
  finalized_at = read_expiry c.finalized_at;
  expires_at = read_expiry c.expires_at;
  finalized = true;
}

time_read :
    (k : Clock) (t : ℕ) → IsClock k → parse_time k (k.format_time t) ≡ some (whole_seconds t)
time_read k t w =
    parse_time_written k (k.format_time t) (whole_seconds t) (w.format_written t) (w.parse-format t)

expiry_read :
    (k : Clock) (o : Option ℕ) → IsClock k → parse_time k (format_expiry k o) ≡ read_expiry o
unfolding parse_time
expiry_read k none w = refl
expiry_read k (some t) w = time_read k t w

instant_read :
    (k : Clock) (o : Option ℕ)
    → IsClock k
    → ReadsZero k
    → parse_time k (format_instant k o) ≡ read_expiry o
unfolding parse_time
instant_read k none w z = z
instant_read k (some t) w z = time_read k t w

to_clip-to_wire :
    (k : Clock) (c : Clip) → IsClock k → ReadsZero k → to_clip k (to_wire k c) ≡ as_listed c
unfolding to_clip to_wire
to_clip-to_wire k c w z =
    rw (time_read k c.created_at w, instant_read k c.finalized_at w z, expiry_read k c.expires_at w)
      refl

entries_read :
    (k : Clock) (cs : List Clip)
    → IsClock k
    → ReadsZero k
    → map (to_clip k) (map (to_wire k) cs) ≡ map as_listed cs
entries_read k [] w z = refl
entries_read k (c ∷ cs) w z = rw (to_clip-to_wire k c w z, entries_read k cs w z) refl

-- A listing of a store as the client returns it, with a clock that reads back what it writes, in
-- whole seconds, and the zero time as zero: from the 200 and the document of the server it is a
-- result without an error, whose clips are those that the store lists, each as often as there, with
-- the same name, generation, size, expiry and times up to the second, and normalized metadata; and
-- the document has them in the order of their names.
pub list_result-listed :
    (k : Clock) (s : Store) (now : ℕ) (a : Answer)
    → IsClock k
    → ReadsZero k
    → a.status ≡ 200
    → (cs : List Clip) × (list_result k (some (listed k s now, [])) (inl a) ≡ clips cs)
      × Perm cs (map as_listed (list s now))
      × IsSorted (listed k s now)
unfolding list_result expect
list_result-listed k s now a w z e =
    let p = listed_lem k s now in
    let q : Perm (map (to_clip k) (listed k s now)) (map as_listed (list s now)) =
      subst (λ cs. Perm (map (to_clip k) (listed k s now)) cs) (entries_read k (list s now) w z)
        (Perm.map (to_clip k) p.0) in
    (_, rw (e, expect) refl, q, p.1)
