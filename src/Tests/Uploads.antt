-- ===== src/Tests/Uploads.antt =====
-- A PUT on a new store.
use buff.Common.{
  ℕ, true, some, bytes_eq, refl, ◌≤◌, ◌≡◌, ◌⊎◌, inl, inr, false, none, [], ◌∷◌, codes, arith,
}
use buff.Clip.Errors.{Error, unexpected_eof}
use buff.Clip.Meta.{Meta}
use buff.Buffer.{memory_backing}
use buff.Store.State.{Store, new_store}
use buff.Store.Medium.{memory_medium}
use buff.Store.Create.{PutOpts, Writer, create, mint}
use buff.Store.Writer.{write, close}
use buff.Api.Errors.{map_err}
use buff.Api.Request.{parse_put}
use buff.Api.Upload.{PutRequest, Reply, put, copy_body, classify_put, refused, stored}
use buff.Api.Upload.Ended.{Ended}
use buff.Api.Upload.Outcome.{put_outcome}
use buff.Tests.Stores.{config, name}
use buff.Tests.Requests.{codec}
use buff.Tests.Responses.{clock}

abbrev upload : PutRequest
upload = record {
  header = [];
  name = name;
  chunks = (codes "he", 6) ∷ (codes "llo", 7) ∷ [];
  ending = none;
  stopping = false;
  inputs = record { now = 5; random = inl 9; sweep_now = 5; retry_now = 5; retry_random = inl 9 };
  close_now = 8;
}

abbrev empty_store : Store
empty_store = new_store config

put_outcome_example :
    let r = put memory_medium memory_backing codec clock upload empty_store in
    ((e : Error) × (parse_put codec [] ≡ inr e)
      × (r ≡ (empty_store, refused (map_err e)))
      × (400 ≤ (map_err e).status))
    ⊎ ((m : Meta) × (o : PutOpts) × (parse_put codec [] ≡ inl (m, o))
        × (let (t, a) = create memory_medium upload.inputs name m o empty_store in
            ((e : Error) × (a ≡ inr e) × (r ≡ (t, refused (map_err e))))
            ⊎ ((w : Writer) × (a ≡ inl w) × Ended r upload w.handle w.gen)))
put_outcome_example =
    put_outcome memory_medium memory_backing codec clock upload empty_store (λ p. omega arith)

abbrev status_of : Reply → ℕ
status_of (refused info) = info.status
status_of (stored header) = 200

abbrev replied : PutRequest → ℕ
replied q = status_of (put memory_medium memory_backing codec clock q empty_store).1

upload_stored : replied upload ≡ 200
unfolding put parse_put create copy_body write close new_store bytes_eq mint
upload_stored = refl

-- The client's body is cut, and a server that stops.
upload_cut : replied (record upload { ending = some unexpected_eof }) ≡ 400
unfolding put parse_put create copy_body write close new_store bytes_eq mint
upload_cut = refl

upload_stopped : replied (record upload { ending = some unexpected_eof; stopping = true }) ≡ 503
unfolding put parse_put create copy_body write close new_store bytes_eq mint
upload_stopped = refl

-- More than the limit of one clip.
upload_too_large :
    replied (record upload {
      chunks =
          (
            codes
                "01234567890123456789012345678901234567890123456789012345678901234567890123456789012345678901234567890",
            6,
          )
          ∷ [];
    })
    ≡ 413
unfolding put parse_put create copy_body write close new_store bytes_eq mint classify_put map_err
upload_too_large = refl
