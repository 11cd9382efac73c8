-- ===== src/Api/Upload.antt =====
-- api/handlers.go: the PUT handler, from the headers to the reply. Its steps stand one after the
-- other here; the calls of other requests that may fall between them are those of Store.History.
pub mod Created
pub mod Copied
pub mod Ended
pub mod Outcome
use buff.Common.{
  ℕ, ◌==◌, Bool, true, false, Option, none, some, ◌⊎◌, inl, inr, List, [], ◌∷◌, Bytes, length,
  if◌then◌else◌,
}
use buff.Clip.Errors.{Error}
use buff.Clip.Meta.{Meta}
use buff.Buffer.{Backing}
use buff.Store.State.{Store}
use buff.Store.Medium.{Medium}
use buff.Store.Create.{PutOpts, Writer, CreateInputs, create}
use buff.Store.Writer.{write, close, abort, writer_clip}
use buff.Wire.{ErrInfo, info_internal, info_bad_req, info_unavailable}
use buff.Wire.Headers.{Header, Codec}
use buff.Wire.Responses.{Clock}
use buff.Api.Errors.{map_err}
use buff.Api.Request.{parse_put}
use buff.Api.Framing.{set_clip_meta}

-- A PUT as the server meets it: the non-empty chunks that the reads of the body return, each with
-- the clock at its write, and the error of the last read, `none` for the clean end. `stopping` is
-- whether the context was cut by `ErrServerStopping`.
pub record PutRequest : Type 0 where
  pub header : Header
  pub name : Bytes
  pub chunks : List (Bytes × ℕ)
  pub ending : Option Error
  pub stopping : Bool
  pub inputs : CreateInputs
  pub close_now : ℕ

-- How the copy of the body ended: the error that it returns is the reader's (`body.readErr`), the
-- writer's, or `io.ErrShortWrite`, which has no row in the error map.
pub data CopyEnd : Type 0 where
  clean : CopyEnd
  read_failed : Error → CopyEnd
  write_failed : Error → CopyEnd
  short_write : CopyEnd

abbrev pub read_end : Option Error → CopyEnd
read_end none = clean
read_end (some e) = read_failed e

-- `io.CopyBuffer` from the body to the store's writer.
unfoldable pub copy_body :
    Medium → Backing → Option Error → List (Bytes × ℕ) → Store → Writer → Store × Writer × CopyEnd
unfolding write
copy_body k b ending [] s w = (s, w, read_end ending)
copy_body k b ending ((p, now) ∷ ps) s w =
    let (t, w', n, err) = write k b s w p now in
    elim err [
      | some e ↦ (t, w', write_failed e)
      | none ↦ elim (n == length p) [
        | true ↦ copy_body k b ending ps t w'
        | false ↦ (t, w', short_write)
      ]
    ]

-- `classifyPut`, without the cause that is logged.
unfoldable pub classify_put : Bool → CopyEnd → ErrInfo
unfolding map_err
classify_put stopping clean = info_internal
classify_put stopping (read_failed e) = if stopping then info_unavailable else info_bad_req
classify_put stopping (write_failed e) = map_err e
classify_put stopping short_write = info_internal

-- The reply: a row of the error table, or the 200 with its headers.
pub data Reply : Type 0 where
  refused : ErrInfo → Reply
  stored : Header → Reply

-- The end of `put` after `Close`: the deferred abort runs unless the generation was committed.
abbrev pub settled : Backing → Codec → Clock → Store → Writer → Option Error → Store × Reply
settled b codec clock s w (some e) = ((abort b s w).0, refused info_internal)
settled b codec clock s w none = (s, stored (set_clip_meta codec clock (writer_clip s w) []))

abbrev pub copied :
    Medium → Backing → Codec → Clock → PutRequest → Store → Writer → CopyEnd → Store × Reply
copied k b codec clock q s w clean =
    let (t, w', err) = close k b s w q.close_now in settled b codec clock t w' err
copied k b codec clock q s w (read_failed e) =
    ((abort b s w).0, refused (classify_put q.stopping (read_failed e)))
copied k b codec clock q s w (write_failed e) =
    ((abort b s w).0, refused (classify_put q.stopping (write_failed e)))
copied k b codec clock q s w short_write =
    ((abort b s w).0, refused (classify_put q.stopping short_write))

abbrev pub uploaded :
    Medium → Backing → Codec → Clock → PutRequest → Store → Writer ⊎ Error → Store × Reply
uploaded k b codec clock q s (inr e) = (s, refused (map_err e))
uploaded k b codec clock q s (inl w) =
    let (t, w', end) = copy_body k b q.ending q.chunks s w in copied k b codec clock q t w' end

abbrev pub admitted :
    Medium → Backing → Codec → Clock → PutRequest → Store → (Meta × PutOpts) ⊎ Error → Store × Reply
admitted k b codec clock q s (inr e) = (s, refused (map_err e))
admitted k b codec clock q s (inl (m, o)) =
    let (t, r) = create k q.inputs q.name m o s in uploaded k b codec clock q t r

-- `put`
unfoldable pub put : Medium → Backing → Codec → Clock → PutRequest → Store → Store × Reply
unfolding parse_put create copy_body close abort writer_clip set_clip_meta classify_put map_err
put k b codec clock q s = admitted k b codec clock q s (parse_put codec q.header)
