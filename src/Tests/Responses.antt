-- ===== src/Tests/Responses.antt =====
-- A clip in a response, and streams that arrive whole or cut.
use buff.Common.{◌≡◌, refl, true, false, none, some, [], ◌∷◌, codes, arith, bytes_eq, take}
use buff.Clip.Errors.{eof}
use buff.Clip.Meta.{Clip, normalized}
use buff.Wire.Headers.{get}
use buff.Wire.Responses.{Clock, IsClock, whole_seconds, header_status, status_complete}
use buff.Api.Framing.{write_headers, Source, Response, stream, copy_buffer}
use buff.Client.Meta.{parse_clip}
use buff.Client.Receiving.{parse_clip-write_headers, as_read}
use buff.Client.Get.{ended, complete, new_body, read_body}
use buff.Client.Transfer.{Delivery, IsDelivered, receive, flatten, read_all}
use buff.Client.Transfer.Faithful.{stream_faithful}
use buff.Client.Transfer.Delivers.{stream_delivers, IsWhole}
use buff.Tests.Requests.{codec, codec-IsCodec, script, read_one}

-- An instant is written as one character of its whole seconds.
abbrev pub clock : Clock
clock = record { format_time = λ t. whole_seconds t ∷ []; parse_rfc3339 = read_one }

clock-IsClock : IsClock clock
clock-IsClock = record { parse-format = λ t. refl; format_written = λ t. λ q. cc }

abbrev shown : Clip
shown = record {
  name = codes "k";
  generation = codes "0a";
  metadata = script;
  size = 3;
  created_at = 5;
  finalized_at = some 7;
  expires_at = some 9000000001;
  consume_once = true;
  finalized = true;
}

parse_clip-write_headers_example :
    parse_clip codec clock (codes "k") (write_headers codec clock shown []) ≡ as_read shown
unfolding normalized bytes_eq
parse_clip-write_headers_example =
    parse_clip-write_headers codec clock shown codec-IsCodec clock-IsClock refl (omega arith)

abbrev live_clip : Clip
live_clip = record shown { finalized = false; finalized_at = none }

abbrev source : Source
source = record { chunks = codes "ab" ∷ codes "c" ∷ []; ending = none }

abbrev sent : Response
sent = stream [] live_clip none source []

abbrev delivery : Delivery
delivery = record {
  pieces = codes "abc" ∷ [];
  ending = ended;
  content_length = none;
  trailer = (header_status, status_complete) ∷ [];
}

delivery-IsDelivered : IsDelivered sent delivery
unfolding stream copy_buffer take
delivery-IsDelivered = record {
  arrived = 3;
  same_framing = refl;
  sent_bytes = refl;
  trailer_last = λ n. (refl, refl, refl);
}

stream_faithful_example :
    ((receive (codes "k") delivery).0 ≡ flatten source.chunks)
    × (live_clip.finalized ≡ false → source.ending ≡ none)
unfolding read_all read_body complete new_body get bytes_eq
stream_faithful_example =
    stream_faithful (codes "k") [] live_clip none source [] delivery (λ q. cc) delivery-IsDelivered
      refl

delivery-IsWhole : IsWhole sent delivery
unfolding stream copy_buffer
delivery-IsWhole = record {
  same_framing = refl;
  all_bytes = refl;
  same_trailer = refl;
  clean_end = refl;
}

stream_delivers_example : receive (codes "k") delivery ≡ (flatten source.chunks, some eof)
stream_delivers_example =
    stream_delivers (codes "k") [] live_clip source delivery refl (λ q. cc) delivery-IsWhole
