-- ===== src/Client/Transfer/Faithful.antt =====
-- api/framing.go and client/get.go: a stream that is read to a clean end is whole.
use buff.Common.{
  ℕ, zero, suc, ◌+◌, ◌≡◌, ◌≢◌, refl, sym, ap, ◌∙◌, inl, inr, Bool, true, false, Option, none, some,
  List, [], ◌∷◌, ◌++◌, Bytes, arith, length, take, Option-cases, bytes_eq, ◌==◌, ==_iff,
}
use buff.Clip.Errors.{Error, eof}
use buff.Clip.Meta.{Clip}
use buff.Wire.Headers.{Header, get}
use buff.Wire.Responses.{header_status, status_complete}
use buff.Api.Framing.{
  exact, chunked, Source, WriteErrors, later_writes, next_write, copy_buffer, sealed, streamed,
  stream,
}
use buff.Client.Get.{Body, new_body, complete}
use buff.Client.Transfer.{
  flatten, length_of, Delivery, IsDelivered, receive, counted, received_end, received_bytes,
  announced,
}

append-take : (p xs : Bytes) (n : ℕ) → p ++ take n xs ≡ take (length p + n) (p ++ xs)
unfolding take
append-take [] xs n = let k : n ≡ 0 + n = omega arith in ap (λ m. take m xs) k
append-take (c ∷ p) xs n =
    let k : suc (length p + n) ≡ length (c ∷ p) + n = omega arith in
    ap (◌∷◌ c) (append-take p xs n) ∙ ap (λ m. take m (c ∷ (p ++ xs))) k

-- A part of the first chunk is a prefix of the whole.
part_prefix : (n : ℕ) (p xs : Bytes) → (m : ℕ) × (take n p ≡ take m (p ++ xs))
unfolding take
part_prefix zero p xs = (0, refl)
part_prefix (suc n) [] xs = (0, refl)
part_prefix (suc n) (c ∷ p) xs = let (m, e) = part_prefix n p xs in (suc m, ap (◌∷◌ c) e)

-- A copy writes a prefix, and all of a clean source if it reports no error.
pub copy_buffer_lem :
    (ps : List Bytes) (ending : Option Error) (errors : WriteErrors)
    → let (written, err) = copy_buffer ps ending errors in
      (n : ℕ) × (written ≡ take n (flatten ps))
      × (err ≡ none → (written ≡ flatten ps) × (ending ≡ none))
unfolding copy_buffer take
copy_buffer_lem [] ending errors = (0, refl, λ e. (refl, e))
copy_buffer_lem (p ∷ ps) ending errors =
    let (n, q, f) = copy_buffer_lem ps ending (later_writes errors) in
    elim (Option-cases (next_write errors)) [
      | inr ((k, e), w) ↦
          let (m, r) = part_prefix k p (flatten ps) in rw (w, copy_buffer) (m, r, λ x. cc)
      | inl w ↦
          rw (w, copy_buffer)
            (
              length p + n,
              ap (λ s. p ++ s) q ∙ append-take p (flatten ps) n,
              λ x. let (a, b) = f x in (ap (λ s. p ++ s) a, b),
            )
    ]

-- What arrived of a finalized clip is a prefix of it, and whole if it has the length of it.
prefix_whole : (s : Bytes) (n m : ℕ) → length (take n (take m s)) ≡ length s → take n (take m s) ≡ s
unfolding take
prefix_whole [] zero m e = refl
prefix_whole [] (suc n) zero e = refl
prefix_whole [] (suc n) (suc m) e = refl
prefix_whole (c ∷ s) zero m e = absurd (omega (arith, e))
prefix_whole (c ∷ s) (suc n) zero e = absurd (omega (arith, e))
prefix_whole (c ∷ s) (suc n) (suc m) e = ap (◌∷◌ c) (prefix_whole s n m (omega (arith, e)))

complete_exact :
    (b : Body) (trailer : Header) (n : ℕ)
    → b.content_length ≡ some n
    → complete b trailer ≡ true
    → b.count ≡ n
unfolding complete
complete_exact b trailer n e c =
    let q : complete b trailer ≡ (b.count == n) = rw (e, complete) refl in
    (==_iff b.count n).0 (sym q ∙ c)

complete_chunked :
    (b : Body) (trailer : Header)
    → b.content_length ≡ none
    → complete b trailer ≡ true
    → trailer ≢ []
unfolding complete get bytes_eq
complete_chunked b trailer e c t =
    let q : complete b trailer ≡ bytes_eq (get trailer header_status) status_complete =
      rw (e, complete) refl in
    let r : bytes_eq (get trailer header_status) status_complete ≡ false = rw t refl in
    let z = sym c ∙ q ∙ r in cc

sealed_exact :
    (h : Header) (n : ℕ) (x : Bytes × Option Error)
    → let r = sealed false h (exact n) x in (r.framing ≡ exact n) × (r.body ≡ x.0)
sealed_exact h n (b, some e) = (refl, refl)
sealed_exact h n (b, none) = (refl, refl)

sealed_chunked :
    (h : Header) (x : Bytes × Option Error)
    → let r = sealed true h chunked x in
      (r.framing ≡ chunked) × (r.body ≡ x.0) × (r.aborted ≡ false → x.1 ≡ none)
sealed_chunked h (b, some e) = (refl, refl, λ q. cc)
sealed_chunked h (b, none) = (refl, refl, λ q. refl)

streamed_faithful :
    (name : Bytes) (h : Header) (c : Clip) (finalized : Bool) (flush : Option Error) (src : Source)
    (errors : WriteErrors) (d : Delivery)
    → (finalized ≡ true → length (flatten src.chunks) ≡ c.size)
    → IsDelivered (streamed h c finalized flush (copy_buffer src.chunks src.ending errors)) d
    → (receive name d).1 ≡ some eof
    → (flatten d.pieces ≡ flatten src.chunks) × (finalized ≡ false → src.ending ≡ none)
streamed_faithful name h c true flush src errors d l w e =
    let x = copy_buffer src.chunks src.ending errors in
    let (f, b) = sealed_exact h c.size x in
    let (n, q, k) = copy_buffer_lem src.chunks src.ending errors in
    let body : flatten d.pieces ≡ take w.arrived (take n (flatten src.chunks)) =
      w.sent_bytes ∙ ap (take w.arrived) (b ∙ q) in
    let size =
      complete_exact (counted (new_body name d.content_length) (length (flatten d.pieces)))
        d.trailer c.size
        (announced name d.content_length (length (flatten d.pieces))
          ∙ w.same_framing
          ∙ ap length_of f)
        (received_end name d e) in
    (
      body
          ∙ prefix_whole (flatten src.chunks) w.arrived n
              (sym (ap length body) ∙ size ∙ sym (l refl)),
      λ z. cc,
    )
streamed_faithful name h c false (some y) src errors d l w e =
    let t =
      complete_chunked (counted (new_body name d.content_length) (length (flatten d.pieces)))
        d.trailer (announced name d.content_length (length (flatten d.pieces)) ∙ w.same_framing)
        (received_end name d e) in
    let (a, b, g) = w.trailer_last t in cc
streamed_faithful name h c false none src errors d l w e =
    let x = copy_buffer src.chunks src.ending errors in
    let (f, b, k) = sealed_chunked h x in
    let t =
      complete_chunked (counted (new_body name d.content_length) (length (flatten d.pieces)))
        d.trailer
        (announced name d.content_length (length (flatten d.pieces))
          ∙ w.same_framing
          ∙ ap length_of f)
        (received_end name d e) in
    let (a, g, whole) = w.trailer_last t in
    let (n, q, m) = copy_buffer_lem src.chunks src.ending errors in
    let (all, clean) = m (k g) in (whole ∙ b ∙ all, λ z. clean)

-- A truncated stream is never taken for a whole one. Whatever the source of a clip gives and however
-- it ends, whichever writes and flushes fail, and however HTTP cuts what was sent, even with a clean
-- end in the middle: if the last read of the client's caller is a clean end, then the caller has read
-- all the bytes of the source, and the source of a live clip has ended cleanly. The source of a
-- finalized clip gives as many bytes as its size.
pub stream_faithful :
    (name : Bytes) (h : Header) (c : Clip) (flush : Option Error) (src : Source)
    (errors : WriteErrors) (d : Delivery)
    → (c.finalized ≡ true → length (flatten src.chunks) ≡ c.size)
    → IsDelivered (stream h c flush src errors) d
    → (receive name d).1 ≡ some eof
    → ((receive name d).0 ≡ flatten src.chunks) × (c.finalized ≡ false → src.ending ≡ none)
unfolding stream
stream_faithful name h c flush src errors d l w e =
    let (a, b) = streamed_faithful name h c c.finalized flush src errors d l w e in
    (received_bytes name d ∙ a, b)
