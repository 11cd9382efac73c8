-- ===== src/Tests/Listings.antt =====
-- A listing of a store with one value.
use mathlib.Core.List.{map, Perm}
use buff.Common.{ℕ, ◌≡◌, refl, inl, Option, none, some, List, [], ◌∷◌, Bytes}
use buff.Clip.Meta.{Clip}
use buff.Store.Manage.{list}
use buff.Wire.Responses.{Clock, IsClock, whole_seconds}
use buff.Api.Listing.{listed}
use buff.Api.Listing.Sorting.{IsSorted}
use buff.Client.Requests.{Answer, list_result, clips}
use buff.Client.Listing.{as_listed, list_result-listed}
use buff.Tests.Stores.{with_value}

-- A text of one character is the instant.
abbrev read_single : Bytes → Option ℕ
read_single [] = none
read_single (c ∷ []) = some c
read_single (c ∷ d ∷ s) = none

abbrev strict_clock : Clock
strict_clock = record { format_time = λ t. whole_seconds t ∷ []; parse_rfc3339 = read_single }

strict_clock-IsClock : IsClock strict_clock
strict_clock-IsClock = record { parse-format = λ t. refl; format_written = λ t. λ q. cc }

abbrev accepted : Answer
accepted = record { status = 200; sentinel = []; header = []; content_length = none }

list_result-listed_example :
    (cs : List Clip) × (list_result strict_clock
        (some (listed strict_clock with_value 8, []))
        (inl accepted)
      ≡ clips cs)
    × Perm cs (map as_listed (list with_value 8))
    × IsSorted (listed strict_clock with_value 8)
list_result-listed_example =
    list_result-listed strict_clock with_value 8 accepted strict_clock-IsClock refl refl
