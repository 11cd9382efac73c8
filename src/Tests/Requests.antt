-- ===== src/Tests/Requests.antt =====
-- A write and a read that cross the wire.
use buff.Common.{
  ℕ, ◌≡◌, refl, true, false, Option, none, some, [], ◌∷◌, Bytes, codes, inl, inr, slt64,
  if◌then◌else◌, bytes_eq,
}
use buff.Clip.Name.{valid_filename}
use buff.Clip.Meta.{Meta, kind_file, kind_valid}
use buff.Client.Opts.{PutOpts, GetOpts}
use buff.Client.Meta.{encode_headers, get_headers}
use buff.Client.Sending.{parse_get-get_headers}
use buff.Client.Sending.Put.{parse_put-encode_headers}
use buff.Api.Request.{parse_put, parse_get}
use buff.Wire.Headers.{Codec, IsCodec}

-- A codec that escapes nothing and writes a duration as one character of that code.
abbrev pub read_one : Bytes → Option ℕ
read_one [] = none
read_one (c ∷ s) = some c

abbrev pub codec : Codec
codec = record {
  escape = λ s. s;
  unescape = λ s. some s;
  show_duration = λ d. d ∷ [];
  read_duration = read_one;
}

pub codec-IsCodec : IsCodec codec
codec-IsCodec = record {
  unescape_escape = λ s. refl;
  escape_written = λ s n. n;
  read_show = λ d. refl;
  show_written = λ d. λ q. cc;
}

abbrev pub script : Meta
script = record { kind = kind_file; filename = codes "run.sh"; executable = true }

abbrev opts : PutOpts
opts = record { ttl = 60; keep = false; consume_once = true; if_match = codes "*" }

parse_put-encode_headers_example :
    parse_put codec (encode_headers codec script opts)
    ≡ inl (
      script,
      record {
        ttl = (if slt64 0 60 then 60 else 0);
        keep = false;
        consume_once = true;
        if_match = codes "*";
      },
    )
parse_put-encode_headers_example =
    parse_put-encode_headers codec script opts codec-IsCodec (unfold kind_valid bytes_eq in refl)
      (inr (unfold valid_filename bytes_eq in refl)) refl

abbrev waits : GetOpts
waits = record { wait = true; follow_next = false }

parse_get-get_headers_example :
    parse_get (get_headers waits) ≡ inl (record { wait = true; follow_next = false })
parse_get-get_headers_example = parse_get-get_headers waits
