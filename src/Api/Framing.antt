-- ===== src/Api/Framing.antt =====
-- api/framing.go and api/api.go (`itoa`): the headers that describe a clip, and the framing that
-- proves that its bytes are complete.
use buff.Common.{
  ℕ, ◌-◌, Bool, true, false, Option, none, some, List, [], ◌∷◌, ◌++◌, Bytes, codes, take, decimal,
  ltb, int64_end, word, if◌then◌else◌,
}
use buff.Clip.Errors.{Error}
use buff.Clip.Meta.{Clip}
use buff.Wire.Headers.{
  Header, set_if, header_kind, header_filename, header_executable, header_consume, Codec,
}
use buff.Wire.Responses.{
  header_generation, header_finalized, header_size, header_expires, header_status, bool_true,
  status_complete, format_bool, Clock,
}

abbrev pub is_present : Bytes → Bool
is_present [] = false
is_present (c ∷ s) = true

-- `itoa` of an int64 pattern.
unfoldable pub itoa : ℕ → Bytes
itoa n = if ltb n int64_end then decimal n else b'-' ∷ decimal (word - n)

abbrev pub set_expires : Clock → Bool → Option ℕ → Header → Header
set_expires k finalized none h = h
set_expires k finalized (some t) h = set_if finalized header_expires (k.format_time t) h

-- `setClipMeta`
unfoldable pub set_clip_meta : Codec → Clock → Clip → Header → Header
unfolding itoa
set_clip_meta k clock c h = set_expires clock c.finalized c.expires_at (
    set_if c.finalized header_size (itoa c.size) (
      set_if c.metadata.executable header_executable bool_true (
        set_if (is_present c.metadata.filename) header_filename (k.escape c.metadata.filename) (
          set_if true header_consume (format_bool c.consume_once) (
            set_if true header_finalized (format_bool c.finalized) (
              set_if true header_kind c.metadata.kind
                (set_if true header_generation c.generation h)))))))

unfoldable pub write_headers : Codec → Clock → Clip → Header → Header
unfolding set_clip_meta
write_headers k clock c h = set_clip_meta k clock c (
    set_if true (codes "X-Content-Type-Options") (codes "nosniff")
      (set_if true (codes "Content-Type") (codes "application/octet-stream") h))

-- How the end of a body is told: by an announced length, or by a trailer.
pub data Framing : Type 0 where
  exact : ℕ → Framing
  chunked : Framing

-- A response as the handler left it. `aborted` is `http.ErrAbortHandler`.
pub record Response : Type 0 where
  pub header : Header
  pub framing : Framing
  pub body : Bytes
  pub trailer : Header
  pub aborted : Bool

-- What `io.CopyBuffer` reads: the chunks, and the error at the end, `none` for a clean end.
pub record Source : Type 0 where
  pub chunks : List Bytes
  pub ending : Option Error

-- The answers of the writes to the connection, in their order: `none` for a write that succeeds, and
-- how many bytes a failing one let out. Past the list, a write succeeds.
abbrev pub WriteErrors : Type 0
WriteErrors = List (Option (ℕ × Error))

abbrev pub next_write : WriteErrors → Option (ℕ × Error)
next_write [] = none
next_write (e ∷ es) = e

abbrev pub later_writes : WriteErrors → WriteErrors
later_writes [] = []
later_writes (e ∷ es) = es

-- `io.CopyBuffer`: what was written before it stopped, and its error.
unfoldable pub copy_buffer : List Bytes → Option Error → WriteErrors → Bytes × Option Error
copy_buffer [] ending errors = ([], ending)
copy_buffer (p ∷ ps) ending errors =
    let (written, err) = copy_buffer ps ending (later_writes errors) in
    elim (next_write errors) [ some (n, e) ↦ (take n p, some e) | none ↦ (p ++ written, err) ]

-- The end of `stream`, after the copy.
abbrev pub sealed : Bool → Header → Framing → Bytes × Option Error → Response
sealed live h f (body, some e) = record {
  header = h;
  framing = f;
  body = body;
  trailer = [];
  aborted = true;
}
sealed live h f (body, none) = record {
  header = h;
  framing = f;
  body = body;
  trailer = set_if live header_status status_complete [];
  aborted = false;
}

abbrev pub torn_response : Header → Framing → Response
torn_response h f = record { header = h; framing = f; body = []; trailer = []; aborted = true }

-- By the state of the clip: a live response is flushed first.
abbrev pub streamed : Header → Clip → Bool → Option Error → Bytes × Option Error → Response
streamed h c true flush copied = sealed false h (exact c.size) copied
streamed h c false (some e) copied = torn_response h chunked
streamed h c false none copied = sealed true h chunked copied

-- `stream`, with the first flush of a live response and the writes as they were answered.
unfoldable pub stream : Header → Clip → Option Error → Source → WriteErrors → Response
unfolding copy_buffer
stream h c flush src errors =
    streamed h c c.finalized flush (copy_buffer src.chunks src.ending errors)
