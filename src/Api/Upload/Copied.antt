-- ===== src/Api/Upload/Copied.antt =====
-- The copy of the body into the store's writer.
use buff.Common.{
  ℕ, ◌≡◌, refl, sym, true, false, not, Option, none, some, ◌++◌, arith, Bool-cases, Option-cases,
  if_elim, inl, inr, Bytes, List, [], ◌∷◌, length, take, take-length, ==_iff, subst, ◌==◌,
}
use mathlib.Core.List.{append-nil, append_assoc}
use buff.Clip.Errors.{Error}
use buff.Buffer.{Backing}
use buff.Buffer.Log.{Honest}
use buff.Store.Quota.{per_clip_ok}
use buff.Store.Generation.{live}
use buff.Store.State.{Store}
use buff.Store.Medium.{Medium}
use buff.Store.Create.{Writer}
use buff.Store.Writer.{write, reserve_chunk, append_chunk}
use buff.Store.Outcomes.Writing.{write-Appends, reserve_chunk-kept}
use buff.Api.Upload.{clean, copy_body, read_end}

-- What the reads of the body return, in one piece.
abbrev pub body_bytes : List (Bytes × ℕ) → Bytes
body_bytes [] = []
body_bytes ((p, now) ∷ ps) = p ++ body_bytes ps

-- The same writer of the same generation, which is still its own to write.
pub record IsStill (t : Store) (w w' : Writer) : Type 0 where
  pub same_gen : w'.gen ≡ w.gen
  pub same_handle : w'.handle ≡ w.handle
  pub not_done : w'.done ≡ false
  pub still_live : (t.heap w.gen).state ≡ live

same-IsStill :
    (s : Store) (w : Writer) → (s.heap w.gen).state ≡ live → w.done ≡ false → IsStill s w w
same-IsStill s w l d = record { same_gen = refl; same_handle = refl; not_done = d; still_live = l }

write-IsStill :
    (k : Medium) (b : Backing) (s : Store) (w : Writer) (p : Bytes) (now : ℕ)
    → (s.heap w.gen).state ≡ live
    → w.done ≡ false
    → let r = write k b s w p now in IsStill r.0 w r.1
unfolding write append_chunk
write-IsStill k b s w p now l d =
    let P = λ (r : Store × Writer × ℕ × Option Error). IsStill r.0 w r.1 in
    let kept = reserve_chunk-kept k s (length p) now w.gen l in
    let kept_live : ((reserve_chunk k s (length p) now).0.heap w.gen).state ≡ live = rw kept l in
    if_elim P w.done _ _ (λ e. same-IsStill s w l d)
      λ e.
        if_elim P (not (per_clip_ok s.quota w.written (length p))) _ _ (λ e. same-IsStill s w l d)
          λ e.
            if_elim P (reserve_chunk k s (length p) now).1 _ _
              (λ g. record {
                same_gen = refl;
                same_handle = refl;
                not_done = d;
                still_live = ground (arith, kept_live);
              })
              (λ g. record {
                same_gen = refl;
                same_handle = refl;
                not_done = d;
                still_live = kept_live;
              })

later-IsStill :
    (t : Store) (w w' w'' : Writer)
    → w'.gen ≡ w.gen
    → w'.handle ≡ w.handle
    → IsStill t w' w''
    → IsStill t w w''
later-IsStill t w w' w'' e f v = record {
  same_gen = cc;
  same_handle = cc;
  not_done = v.not_done;
  still_live = subst (λ g. (t.heap g).state ≡ live) e v.still_live;
}

-- However the copy ends, the writer has its generation, and is not done.
pub copy-IsStill :
    (k : Medium) (b : Backing) (ending : Option Error) (ps : List (Bytes × ℕ)) (s : Store)
    (w : Writer)
    → (s.heap w.gen).state ≡ live
    → w.done ≡ false
    → let r = copy_body k b ending ps s w in IsStill r.0 w r.1
unfolding copy_body
copy-IsStill k b ending [] s w l d = same-IsStill s w l d
copy-IsStill k b ending ((p, now) ∷ ps) s w l d =
    let r = write k b s w p now in
    let v = write-IsStill k b s w p now l d in
    elim (Option-cases r.3) [
      | inr (x, e) ↦ rw (e, copy_body) v
      | inl e ↦ elim (Bool-cases (r.2 == length p)) [
        | inr f ↦ rw (e, copy_body, f, copy_body) v
        | inl f ↦
            rw (e, copy_body, f, copy_body)
              (later-IsStill _ w r.1 _ v.same_gen v.same_handle
                (copy-IsStill k b ending ps r.0 r.1 (rw v.same_gen v.still_live) v.not_done))
      ]
    ]

-- A copy that ends clean: the body ended clean, and all its bytes are in the log.
pub record IsWhole (b : Option Error) (ps : List (Bytes × ℕ)) (old new : Bytes) : Type 0 where
  pub ended : b ≡ none
  pub all_bytes : new ≡ old ++ body_bytes ps

appended :
    (old mid new p rest : Bytes) (n : ℕ)
    → (n == length p) ≡ true
    → mid ≡ old ++ take n p
    → new ≡ mid ++ rest
    → new ≡ old ++ (p ++ rest)
appended old mid new p rest n e f g =
    let whole : take n p ≡ p = rw ((==_iff n (length p)).0 e) (take-length p) in
    rw (g, f, whole) (append_assoc old p rest)

ended_clean : (o : Option Error) → read_end o ≡ clean → o ≡ none
ended_clean none c = refl
ended_clean (some e) c = cc

pub copy-IsWhole :
    (k : Medium) (b : Backing) (ending : Option Error) (ps : List (Bytes × ℕ)) (s : Store)
    (w : Writer)
    → Honest b
    → (s.heap w.gen).state ≡ live
    → w.done ≡ false
    → let r = copy_body k b ending ps s w in
      r.2 ≡ clean → IsWhole ending ps (s.heap w.gen).buf.stored (r.0.heap w.gen).buf.stored
unfolding copy_body
copy-IsWhole k b ending [] s w h l d = λ c. record {
  ended = ended_clean ending c;
  all_bytes = sym (append-nil (s.heap w.gen).buf.stored);
}
copy-IsWhole k b ending ((p, now) ∷ ps) s w h l d =
    let r = write k b s w p now in
    let v = write-IsStill k b s w p now l d in
    let a = write-Appends k b s w p now h l in
    elim (Option-cases r.3) [
      | inr (x, e) ↦ rw (e, copy_body) (λ c. cc)
      | inl e ↦ elim (Bool-cases (r.2 == length p)) [
        | inr f ↦ rw (e, copy_body, f, copy_body) (λ c. cc)
        | inl f ↦
            rw (e, copy_body, f, copy_body)
              (λ c.
                let u =
                  copy-IsWhole k b ending ps r.0 r.1 h (rw v.same_gen v.still_live) v.not_done c in
                let read = (copy_body k b ending ps r.0 r.1).0 in
                let all : (read.heap w.gen).buf.stored
                    ≡ (r.0.heap w.gen).buf.stored ++ body_bytes ps =
                  subst (λ g. (read.heap g).buf.stored ≡ (r.0.heap g).buf.stored ++ body_bytes ps)
                    v.same_gen u.all_bytes in
                record {
                  ended = u.ended;
                  all_bytes = appended _ _ _ p (body_bytes ps) r.2 f a.stored all;
                })
      ]
    ]
