-- ===== src/Client/Transfer.antt =====
-- A GET from the server's store to the client's caller: api/framing.go (`stream`) on one side,
-- client/get.go (`Read`) on the other.
pub mod Faithful
pub mod Delivers
use mathlib.Core.List.{append-nil}
use buff.Common.{
  ℕ, zero, suc, ◌+◌, ◌≡◌, ◌≢◌, refl, sym, ap, subst, ◌∙◌, ◌⊎◌, inl, inr, Bool, true, false, not,
  Option, none, some, List, [], ◌∷◌, ◌++◌, Bytes, arith, length, length-append, take, take-length,
  Option-cases, Bool-cases, bytes_eq, bytes_eq_iff, if◌then◌else◌, if_elim, ◌==◌, ==_iff,
}
use buff.Clip.Errors.{Error, eof, aborted}
use buff.Clip.Meta.{Clip}
use buff.Wire.Headers.{Header, get}
use buff.Wire.Responses.{header_status, status_complete}
use buff.Api.Framing.{
  Framing, exact, chunked, Response, Source, WriteErrors, later_writes, next_write, copy_buffer,
  sealed, torn_response, streamed, stream,
}
use buff.Client.Get.{
  Body, new_body, ReadEnd, going_on, ended, failed, complete, read_end, read_body, torn,
}

abbrev pub flatten : List Bytes → Bytes
flatten [] = []
flatten (p ∷ ps) = p ++ flatten ps

abbrev pub length_of : Framing → Option ℕ
length_of (exact n) = some n
length_of chunked = none

-- What arrived of a response: its pieces, how the last read ended, and the trailer.
pub record Delivery : Type 0 where
  pub pieces : List Bytes
  pub ending : ReadEnd
  pub content_length : Option ℕ
  pub trailer : Header

-- What HTTP guarantees of a delivery, however it is cut: the framing is that of the response, no
-- byte is there that was not sent, and a trailer comes only after the whole body of a response that
-- was not aborted. That a body ends cleanly says nothing.
pub record IsDelivered (r : Response) (d : Delivery) : Type 0 where
  pub arrived : ℕ
  pub same_framing : d.content_length ≡ length_of r.framing
  pub sent_bytes : flatten d.pieces ≡ take arrived r.body
  pub trailer_last :
      d.trailer ≢ [] → (d.trailer ≡ r.trailer) × (r.aborted ≡ false) × (flatten d.pieces ≡ r.body)

-- The caller reads to the first error.
unfoldable pub read_all : Body → Header → List Bytes → ReadEnd → Bytes × Option Error
unfolding read_body
read_all b trailer [] e = let (b', got, err) = read_body b trailer [] e in (got, err)
read_all b trailer (p ∷ ps) e =
    let (b', got, err) = read_body b trailer p going_on in
    let (rest, end) = read_all b' trailer ps e in (got ++ rest, end)

abbrev pub receive : Bytes → Delivery → Bytes × Option Error
receive name d = read_all (new_body name d.content_length) d.trailer d.pieces d.ending

abbrev pub counted : Body → ℕ → Body
counted b n = record b { count = n }

pub read_all_lem :
    (b : Body) (trailer : Header) (ps : List Bytes) (e : ReadEnd)
    → read_all b trailer ps e
      ≡ (flatten ps, read_end (counted b (b.count + length (flatten ps))) trailer e)
unfolding read_all read_body
read_all_lem b trailer [] e = refl
read_all_lem b trailer (p ∷ ps) e =
    let r = read_all_lem (counted b (b.count + length p)) trailer ps e in
    let q : (b.count + length p) + length (flatten ps) ≡ b.count + length (p ++ flatten ps) =
      omega (arith, length-append p (flatten ps)) in
    ap (λ (x : Bytes × Option Error). (p ++ x.0, x.1)) r
    ∙ ap (λ n. (p ++ flatten ps, read_end (counted b n) trailer e)) q

-- A clean end is reported only for a complete body.
pub end_complete :
    (b : Body) (trailer : Header) (e : ReadEnd)
    → read_end b trailer e ≡ some eof
    → (e ≡ ended) × (complete b trailer ≡ true)
end_complete b trailer going_on q = cc
end_complete b trailer (failed x) q = cc
end_complete b trailer ended q = elim (Bool-cases (complete b trailer)) [
  | inl c ↦ (refl, c)
  | inr c ↦ let z : read_end b trailer ended ≡ some (torn b) = rw c refl in cc
]

pub received_end :
    (name : Bytes) (d : Delivery)
    → (receive name d).1 ≡ some eof
    → complete (counted (new_body name d.content_length) (length (flatten d.pieces))) d.trailer
      ≡ true
unfolding new_body
received_end name d e =
    let b = new_body name d.content_length in
    let q = read_all_lem b d.trailer d.pieces d.ending in
    let k : 0 + length (flatten d.pieces) ≡ length (flatten d.pieces) = omega arith in
    let r =
      (end_complete (counted b (0 + length (flatten d.pieces))) d.trailer d.ending
        (sym (ap (λ (x : Bytes × Option Error). x.1) q) ∙ e)).1 in
    sym (ap (λ n. complete (counted b n) d.trailer) k) ∙ r

pub received_bytes : (name : Bytes) (d : Delivery) → (receive name d).0 ≡ flatten d.pieces
received_bytes name d =
    ap (λ (x : Bytes × Option Error). x.0)
      (read_all_lem (new_body name d.content_length) d.trailer d.pieces d.ending)

pub announced :
    (name : Bytes) (o : Option ℕ) (n : ℕ) → (counted (new_body name o) n).content_length ≡ o
unfolding new_body
announced name o n = refl
