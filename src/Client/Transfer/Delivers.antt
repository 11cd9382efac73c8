-- ===== src/Client/Transfer/Delivers.antt =====
-- api/framing.go and client/get.go: a stream that is whole is read to a clean end.
use buff.Common.{
  ◌+◌, ◌≡◌, refl, ap, subst, ◌∙◌, Bool, true, false, Option, none, some, List, [], ◌∷◌, ◌++◌, Bytes,
  arith, length, bytes_eq, ==_iff,
}
use buff.Clip.Errors.{Error, eof}
use buff.Clip.Meta.{Clip}
use buff.Wire.Headers.{Header, get}
use buff.Api.Framing.{Response, Source, copy_buffer, streamed, stream}
use buff.Client.Get.{new_body, ended, complete, read_end}
use buff.Client.Transfer.{flatten, length_of, Delivery, receive, counted, read_all_lem}

copy_buffer_clean : (ps : List Bytes) → copy_buffer ps none [] ≡ (flatten ps, none)
unfolding copy_buffer
copy_buffer_clean [] = refl
copy_buffer_clean (p ∷ ps) =
    ap (λ (x : Bytes × Option Error). (p ++ x.0, x.1)) (copy_buffer_clean ps)

-- What arrives if nothing is lost.
pub record IsWhole (r : Response) (d : Delivery) : Type 0 where
  pub same_framing : d.content_length ≡ length_of r.framing
  pub all_bytes : flatten d.pieces ≡ r.body
  pub same_trailer : d.trailer ≡ r.trailer
  pub clean_end : d.ending ≡ ended

whole_end :
    (name : Bytes) (d : Delivery)
    → d.ending ≡ ended
    → complete (counted (new_body name d.content_length) (0 + length (flatten d.pieces))) d.trailer
      ≡ true
    → receive name d ≡ (flatten d.pieces, some eof)
unfolding new_body
whole_end name d e c =
    let b = counted (new_body name d.content_length) (0 + length (flatten d.pieces)) in
    let q : read_end b d.trailer ended ≡ some eof = rw c refl in
    read_all_lem (new_body name d.content_length) d.trailer d.pieces d.ending
    ∙ ap (λ x. (flatten d.pieces, read_end b d.trailer x)) e
    ∙ ap (λ x. (flatten d.pieces, x)) q

streamed_whole :
    (name : Bytes) (h : Header) (c : Clip) (finalized : Bool) (all : Bytes) (d : Delivery)
    → (finalized ≡ true → length all ≡ c.size)
    → IsWhole (streamed h c finalized none (all, none)) d
    → complete (counted (new_body name d.content_length) (0 + length (flatten d.pieces))) d.trailer
      ≡ true
unfolding complete new_body get bytes_eq
streamed_whole name h c true all d l w =
    rw (w.same_framing, complete)
      ((==_iff (0 + length (flatten d.pieces)) c.size).1
        (omega (arith, ap length w.all_bytes, l refl)))
streamed_whole name h c false all d l w = rw (w.same_framing, complete, w.same_trailer) refl

streamed_body :
    (h : Header) (c : Clip) (finalized : Bool) (b : Bytes)
    → (streamed h c finalized none (b, none)).body ≡ b
streamed_body h c true b = refl
streamed_body h c false b = refl

-- And a whole stream is not taken for a truncated one: if the source ends cleanly, no write or flush
-- fails and nothing is lost on the way, then the client's caller reads all the bytes of the source,
-- and then a clean end.
pub stream_delivers :
    (name : Bytes) (h : Header) (c : Clip) (src : Source) (d : Delivery)
    → src.ending ≡ none
    → (c.finalized ≡ true → length (flatten src.chunks) ≡ c.size)
    → IsWhole (stream h c none src []) d
    → receive name d ≡ (flatten src.chunks, some eof)
unfolding stream
stream_delivers name h c src d e l w =
    let q : copy_buffer src.chunks src.ending [] ≡ (flatten src.chunks, none) =
      ap (λ x. copy_buffer src.chunks x []) e ∙ copy_buffer_clean src.chunks in
    let w' : IsWhole (streamed h c c.finalized none (flatten src.chunks, none)) d =
      subst (λ x. IsWhole (streamed h c c.finalized none x) d) q w in
    let same : flatten d.pieces ≡ flatten src.chunks =
      w'.all_bytes ∙ streamed_body h c c.finalized (flatten src.chunks) in
    whole_end name d w.clean_end (streamed_whole name h c c.finalized (flatten src.chunks) d l w')
    ∙ ap (λ s. (s, some eof)) same
