-- ===== src/Client/Requests.antt =====
-- client/put.go, client/get.go, client/stat.go, client/list.go and client/client.go: what each call
-- makes of the answer to its request. The request itself is net/http's, and so is its error.
use mathlib.Core.List.{map}
use buff.Common.{
  ℕ, ◌==◌, true, not, ◌&&◌, Option, none, some, ◌⊎◌, inl, inr, List, [], ◌∷◌, Bytes, if◌then◌else◌,
}
use buff.Clip.Errors.{Error, is, canceled, deadline_exceeded, unreachable, wrap}
use buff.Clip.Meta.{Meta, Clip, kind_bytes, normalized}
use buff.Wire.Headers.{Header, Codec}
use buff.Wire.Responses.{Clock}
use buff.Api.Listing.{WireClip}
use buff.Client.Opts.{PutOpts}
use buff.Client.Errors.{response_error}
use buff.Client.Get.{Body, new_body}
use buff.Client.Meta.{encode_headers, parse_clip, parse_time}

-- The parts of an `http.Response` that are read: `sentinel` is its `Buff-Error`.
pub record Answer : Type 0 where
  pub status : ℕ
  pub sentinel : Bytes
  pub header : Header
  pub content_length : Option ℕ

-- `do`, whose result the calls below get: a round trip that failed is `ErrUnreachable`, and the cause
-- that is wrapped alongside is not kept.
abbrev pub sent : Bytes → Answer ⊎ Error → Answer ⊎ Error
sent call (inl a) = inl a
sent call (inr e) = inr (wrap call unreachable)

-- An answer of the wanted status, or the typed error of another.
unfoldable pub expect : ℕ → Answer ⊎ Error → Answer ⊎ Error
unfolding response_error
expect status (inr e) = inr e
expect status (inl a) =
    if a.status == status then inl a else inr (response_error a.sentinel a.status)

-- The metadata that `Put` encodes.
unfoldable pub put_meta : Meta → Meta
unfolding normalized
put_meta m = normalized (record m { kind = elim m.kind [ [] ↦ kind_bytes | c ∷ s ↦ c ∷ s ] })

unfoldable pub put_headers : Codec → Meta → PutOpts → Header
unfolding encode_headers put_meta
put_headers k m o = encode_headers k (put_meta m) o

-- How `Put` ends. A write that the server did not confirm as consume-once has sent a DELETE of its
-- name, whose outcome is dropped; a source fault is the error of the caller's reader.
pub data PutResult : Type 0 where
  put_clip : Clip → PutResult
  put_failed : Error → PutResult
  source_failed : Error → PutResult
  consume_unconfirmed : PutResult

abbrev pub blamed : Option Error → Error → PutResult
blamed none e = put_failed e
blamed (some r) e =
    if not (is r canceled) && not (is r deadline_exceeded) then source_failed r else put_failed e

abbrev pub confirmed : PutOpts → Clip → PutResult
confirmed o c = if o.consume_once && not c.consume_once then consume_unconfirmed else put_clip c

abbrev pub put_answered : Codec → Clock → Bytes → PutOpts → Answer ⊎ Error → PutResult
put_answered k clock name o (inr e) = put_failed e
put_answered k clock name o (inl a) = confirmed o (parse_clip k clock name a.header)

-- `Put`, of the error that `recordingReader` kept and the answer to the request.
unfoldable pub put_result :
    Codec → Clock → Bytes → PutOpts → Option Error → Answer ⊎ Error → PutResult
unfolding is parse_clip expect
put_result k clock name o kept (inr e) = blamed kept e
put_result k clock name o kept (inl a) = put_answered k clock name o (expect 200 (inl a))

abbrev pub clip_from : Codec → Clock → Bytes → Answer ⊎ Error → Clip ⊎ Error
clip_from k clock name (inr e) = inr e
clip_from k clock name (inl a) = inl (parse_clip k clock name a.header)

-- `Stat`
unfoldable pub stat_result : Codec → Clock → Bytes → Answer ⊎ Error → Clip ⊎ Error
unfolding parse_clip expect
stat_result k clock name r = clip_from k clock name (expect 200 r)

abbrev pub body_from : Codec → Clock → Bytes → Answer ⊎ Error → (Body × Clip) ⊎ Error
body_from k clock name (inr e) = inr e
body_from k clock name (inl a) =
    inl (new_body name a.content_length, parse_clip k clock name a.header)

-- `Get`
unfoldable pub get_result : Codec → Clock → Bytes → Answer ⊎ Error → (Body × Clip) ⊎ Error
unfolding parse_clip new_body expect
get_result k clock name r = body_from k clock name (expect 200 r)

abbrev pub time_or_zero : Option ℕ → ℕ
time_or_zero none = 0
time_or_zero (some t) = t

-- `toClip`: an entry is decoded_list to the fields that the server's type has.
unfoldable pub to_clip : Clock → WireClip → Clip
unfolding normalized parse_time
to_clip k c = record {
  name = c.name;
  generation = c.generation;
  metadata =
      normalized (record { kind = c.kind; filename = c.filename; executable = c.executable });
  size = c.size;
  created_at = time_or_zero (parse_time k c.created_at);
  finalized_at = parse_time k c.finalized_at;
  expires_at = parse_time k c.expires_at;
  consume_once = c.consume_once;
  finalized = true;
}

-- How `List` ends. `undecoded` is a document that `encoding/json` refuses.
pub data ListResult : Type 0 where
  clips : List Clip → ListResult
  list_failed : Error → ListResult
  undecoded : ListResult
  paginated : ListResult

abbrev pub decoded_list : Clock → Option (List WireClip × Bytes) → ListResult
decoded_list k none = undecoded
decoded_list k (some (entries, [])) = clips (map (to_clip k) entries)
decoded_list k (some (entries, c ∷ s)) = paginated

abbrev pub list_answered : Clock → Option (List WireClip × Bytes) → Answer ⊎ Error → ListResult
list_answered k document (inr e) = list_failed e
list_answered k document (inl a) = decoded_list k document

-- `List`, of the answer and of the document that its body decodes to: the entries and `next`.
unfoldable pub list_result : Clock → Option (List WireClip × Bytes) → Answer ⊎ Error → ListResult
unfolding to_clip expect
list_result k document r = list_answered k document (expect 200 r)
