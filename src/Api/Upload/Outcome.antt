-- ===== src/Api/Upload/Outcome.antt =====
-- What a PUT leaves: the whole body as the value of the name, or no trace of it.
use buff.Common.{◌≤◌, ◌≡◌, refl, ◌⊎◌, inl, inr, Sum-cases, subst}
use buff.Clip.Errors.{Error}
use buff.Clip.Meta.{Meta}
use buff.Buffer.{Backing}
use buff.Buffer.Log.{Honest}
use buff.Store.State.{Store}
use buff.Store.Medium.{Medium}
use buff.Store.Create.{PutOpts, Writer, create}
use buff.Wire.Headers.{Codec}
use buff.Wire.Responses.{Clock}
use buff.Api.Errors.{map_err}
use buff.Api.Request.{parse_put}
use buff.Api.Upload.{PutRequest, refused, copied, uploaded, put, copy_body}
use buff.Api.Upload.Created.{IsNew, create-CreatesNew, CreatesNew}
use buff.Api.Upload.Copied.{copy-IsStill, copy-IsWhole}
use buff.Api.Upload.Ended.{Ended, copied-Ended, map_err_fails}

-- A writer that was handed out: what its upload leaves.
written-Ended :
    (k : Medium) (b : Backing) (codec : Codec) (clock : Clock) (q : PutRequest) (s : Store)
    (w : Writer)
    → Honest b
    → IsNew s w
    → let c = copy_body k b q.ending q.chunks s w in
      Ended (copied k b codec clock q c.0 c.1 c.2) q w.handle w.gen
written-Ended k b codec clock q s w h n =
    let c = copy_body k b q.ending q.chunks s w in
    let v = copy-IsStill k b q.ending q.chunks s w n.blank.is_live n.not_done in
    let whole = copy-IsWhole k b q.ending q.chunks s w h n.blank.is_live n.not_done in
    subst (λ i. Ended (copied k b codec clock q c.0 c.1 c.2) q i w.gen) v.same_handle
      (subst (λ g. Ended (copied k b codec clock q c.0 c.1 c.2) q c.1.handle g) v.same_gen
        (copied-Ended k b codec clock q c.0 c.1 c.2 v.not_done
          (λ e. ((whole e).ended, rw (v.same_gen, (whole e).all_bytes, n.blank.nothing) refl))))

-- After a good parse: what `Create` answered, and what follows.
admitted_outcome :
    (k : Medium) (b : Backing) (codec : Codec) (clock : Clock) (q : PutRequest) (t : Store)
    (a : Writer ⊎ Error)
    → Honest b
    → CreatesNew (t, a)
    → let r = uploaded k b codec clock q t a in
      ((e : Error) × (a ≡ inr e) × (r ≡ (t, refused (map_err e))))
      ⊎ ((w : Writer) × (a ≡ inl w) × Ended r q w.handle w.gen)
admitted_outcome k b codec clock q t (inr e) h n = inl (e, refl, refl)
admitted_outcome k b codec clock q t (inl w) h n =
    inr (w, refl, written-Ended k b codec clock q t w h n)

-- A PUT, on a backing that reports no more bytes than it was given, ends in one of three ways. The
-- headers do not parse: the store is as it was, and the reply is a row of the error table with a
-- status of at least 400. `Create` refuses: the store is as `Create` left it, and the reply is the
-- row of its error. Or `Create` hands out a writer: then either the reply is the 200, the body
-- ended clean, the writer's generation is the current value of the name's handle, finalized and
-- closed, and its bytes are exactly the chunks of the body in order; or the reply is a row with a
-- status of at least 400, the handle has no writer any more, and the log of the upload is torn and
-- its bytes are given up. So no upload leaves a live generation behind.
pub put_outcome :
    (k : Medium) (b : Backing) (codec : Codec) (clock : Clock) (q : PutRequest) (s : Store)
    → Honest b
    → let r = put k b codec clock q s in
      ((e : Error) × (parse_put codec q.header ≡ inr e)
        × (r ≡ (s, refused (map_err e)))
        × (400 ≤ (map_err e).status))
      ⊎ ((m : Meta) × (o : PutOpts) × (parse_put codec q.header ≡ inl (m, o))
          × (let (t, a) = create k q.inputs q.name m o s in
              ((e : Error) × (a ≡ inr e) × (r ≡ (t, refused (map_err e))))
              ⊎ ((w : Writer) × (a ≡ inl w) × Ended r q w.handle w.gen)))
unfolding put
put_outcome k b codec clock q s h = elim (Sum-cases (parse_put codec q.header)) [
  | inr (e, p) ↦ inl (e, p, rw (p, put) refl, map_err_fails e)
  | inl ((m, o), p) ↦ inr (
    m,
    o,
    p,
    rw (p, put)
        (admitted_outcome k b codec clock q _ _ h (create-CreatesNew k q.inputs q.name m o s)),
  )
]
