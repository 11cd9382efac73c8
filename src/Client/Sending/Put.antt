-- ===== src/Client/Sending/Put.antt =====
-- The write that the client sends is the write that the server reads.
use buff.Common.{◌≡◌, refl, ◌∙◌, ap, ◌⊎◌, inl, true, false, none, [], slt64, if◌then◌else◌}
use buff.Clip.Name.{valid_filename}
use buff.Clip.Meta.{Meta, kind_valid}
use buff.Client.Opts.{PutOpts}
use buff.Client.Meta.{encode_headers}
use buff.Api.Request.{parse_put, bool_header, parse_kind, parse_filename, parse_ttl, parse_flag}
use buff.Wire.Headers.{
  get, header_kind, header_filename, header_executable, header_ttl, header_keep, header_consume,
  header_if_match, Codec, IsCodec,
}
use buff.Client.Sending.{parse_flag_lem, whole_match, valid_kind, escaped_filename, valid_ttl}
use buff.Client.Sending.Layers.{
  h_all, sent_kind, sent_filename, sent_ttl, sent_keep, sent_consume, sent_executable, sent_match,
}

module _ (k : Codec) (m : Meta) (o : PutOpts) where
  read_kind : kind_valid m.kind ≡ true → parse_kind (get (h_all k m o) header_kind) ≡ inl m.kind
  read_kind v = ap parse_kind (sent_kind k m o) ∙ valid_kind m.kind v

  read_filename :
      IsCodec k
      → (m.filename ≡ []) ⊎ (valid_filename m.filename ≡ none)
      → parse_filename k (get (h_all k m o) header_filename) ≡ inl m.filename
  read_filename c v =
      ap (parse_filename k) (sent_filename k m o) ∙ escaped_filename k m.filename c v

  read_ttl :
      IsCodec k
      → slt64 o.ttl 0 ≡ false
      → parse_ttl k (get (h_all k m o) header_ttl) ≡ inl (if slt64 0 o.ttl then o.ttl else 0)
  read_ttl c v = ap (parse_ttl k) (sent_ttl k m o) ∙ valid_ttl k o.ttl c v

  read_keep : bool_header (h_all k m o) header_keep ≡ inl o.keep
  unfolding bool_header
  read_keep = ap parse_flag (sent_keep k m o) ∙ parse_flag_lem o.keep

  read_consume : bool_header (h_all k m o) header_consume ≡ inl o.consume_once
  unfolding bool_header
  read_consume = ap parse_flag (sent_consume k m o) ∙ parse_flag_lem o.consume_once

  read_executable : bool_header (h_all k m o) header_executable ≡ inl m.executable
  unfolding bool_header
  read_executable = ap parse_flag (sent_executable k m o) ∙ parse_flag_lem m.executable

  read_match : get (h_all k m o) header_if_match ≡ o.if_match
  read_match = (sent_match k m o) ∙ whole_match o.if_match

-- The server reads, of the headers of a write, exactly the metadata and the options that the
-- client was given, if the kind is a known one, the file name is absent or one that the server
-- accepts, and the retention is not negative; a retention of zero is not sent, and reads as zero.
pub parse_put-encode_headers :
    (k : Codec) (m : Meta) (o : PutOpts)
    → IsCodec k
    → kind_valid m.kind ≡ true
    → (m.filename ≡ []) ⊎ (valid_filename m.filename ≡ none)
    → slt64 o.ttl 0 ≡ false
    → parse_put k (encode_headers k m o)
      ≡ inl (
        m,
        record {
          ttl = (if slt64 0 o.ttl then o.ttl else 0);
          keep = o.keep;
          consume_once = o.consume_once;
          if_match = o.if_match;
        },
      )
unfolding parse_put encode_headers
parse_put-encode_headers k m o c v f t =
    rw
      (
        read_kind k m o v,
        read_filename k m o c f,
        read_ttl k m o c t,
        read_keep k m o,
        read_consume k m o,
        read_executable k m o,
        read_match k m o,
      )
      refl
