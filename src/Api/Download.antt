-- ===== src/Api/Download.antt =====
-- api/handlers.go: the handlers of GET, HEAD and DELETE. A GET is its start, the turns of its `Open`,
-- and the stream of what was opened, after which the reader is closed on every path.
use buff.Common.{ℕ, ◌||◌, Bool, Option, none, some, ◌⊎◌, inl, inr, [], Bytes, codes, if◌then◌else◌}
use buff.Clip.Errors.{Error, is, canceled, deadline_exceeded}
use buff.Clip.Meta.{Clip}
use buff.Buffer.{Backing}
use buff.Store.State.{Store}
use buff.Store.Medium.{Medium}
use buff.Store.Open.{
  GetOpts, OpenCall, OpenTurn, LeasedReader, opened, failing, waiting, open_start, open_turn,
  open_cancel, close_reader,
}
use buff.Store.Manage.{stat, delete}
use buff.Wire.{ErrInfo, info_unavailable}
use buff.Wire.Headers.{Header, set_if, Codec}
use buff.Wire.Responses.{Clock}
use buff.Api.Errors.{map_err}
use buff.Api.Request.{parse_get}
use buff.Api.Framing.{Response, Source, WriteErrors, write_headers, stream, itoa}

unfoldable pub is_cancel : Error → Bool
unfolding is
is_cancel e = is e canceled || is e deadline_exceeded

-- `classifyGet`, without the cause that is logged: a row, or `none` for the reset. `stopping` is
-- whether the context was cut by `ErrServerStopping`.
unfoldable pub classify_get : Bool → Error → Option ErrInfo
unfolding is_cancel map_err
classify_get stopping e =
    if is_cancel e then (if stopping then some info_unavailable else none) else some (map_err e)

-- What a GET comes to: a row of the error table, `http.ErrAbortHandler` before any byte, or a
-- response that was started.
pub data GetReply : Type 0 where
  answered : ErrInfo → GetReply
  reset : GetReply
  streaming : LeasedReader → Clip → Header → GetReply

abbrev pub disposition : Option ErrInfo → GetReply
disposition none = reset
disposition (some info) = answered info

abbrev pub open_failed : Bool → Store × (OpenCall ⊎ Error) → Store × (OpenCall ⊎ GetReply)
open_failed stopping (s, inl c) = (s, inl c)
open_failed stopping (s, inr e) = (s, inr (disposition (classify_get stopping e)))

abbrev pub starting :
    Bytes → Option Error → Bool → Store → GetOpts ⊎ Error → Store × (OpenCall ⊎ GetReply)
starting name ctx stopping s (inr e) = (s, inr (answered (map_err e)))
starting name ctx stopping s (inl o) = open_failed stopping (open_start name o ctx s)

-- `get`, up to the first turn of `Open`.
unfoldable pub get_start :
    Header → Bytes → Option Error → Bool → Store → Store × (OpenCall ⊎ GetReply)
unfolding parse_get open_start classify_get map_err
get_start h name ctx stopping s = starting name ctx stopping s (parse_get h)

abbrev pub turned : Codec → Clock → Bool → Store × OpenTurn → Store × (OpenCall ⊎ GetReply)
turned k clock stopping (s, waiting c n) = (s, inl c)
turned k clock stopping (s, failing e) = (s, inr (disposition (classify_get stopping e)))
turned k clock stopping (s, opened r c) = (s, inr (streaming r c (write_headers k clock c [])))

-- `get`, over one turn of `Open`, and over the end of its wait.
unfoldable pub get_turn :
    Medium
    → Backing
    → Codec
    → Clock
    → Option Error
    → Bool
    → Bool
    → ℕ
    → Store
    → OpenCall
    → Store × (OpenCall ⊎ GetReply)
unfolding open_turn classify_get write_headers
get_turn m b k clock ctx stopping elapsed now s c =
    turned k clock stopping (open_turn m b ctx elapsed now s c)

unfoldable pub get_cancel :
    Codec → Clock → Bool → Bool → Error → Store → OpenCall → Store × (OpenCall ⊎ GetReply)
unfolding open_cancel classify_get write_headers
get_cancel k clock stopping elapsed e s c = turned k clock stopping (open_cancel s c elapsed e)

-- The end of `get`: the stream, in whatever store it ends, and the deferred close of the reader.
unfoldable pub get_stream :
    LeasedReader → Clip → Header → Option Error → Source → WriteErrors → Store → Store × Response
unfolding stream close_reader
get_stream r c h flush src errors s = ((close_reader s r).0, stream h c flush src errors)

abbrev pub head_of : Codec → Clock → Clip ⊎ Error → Header ⊎ ErrInfo
head_of k clock (inr e) = inr (map_err e)
head_of k clock (inl c) =
    inl (set_if c.finalized (codes "Content-Length") (itoa c.size) (write_headers k clock c []))

unfoldable pub head : Codec → Clock → Bytes → ℕ → Store → Store × (Header ⊎ ErrInfo)
unfolding stat map_err write_headers itoa
head k clock name now s = let (t, r) = stat name now s in (t, head_of k clock r)

abbrev pub removal : Option Error → Option ErrInfo
removal none = none
removal (some e) = some (map_err e)

-- The DELETE handler: `none` is the 204.
unfoldable pub remove_clip : Medium → Bytes → ℕ → Store → Store × Option ErrInfo
unfolding delete map_err
remove_clip m name now s = let (t, err) = delete m name now s in (t, removal err)
