-- ===== src/Client/Sending/Layers.antt =====
-- Each header of a write is read back, past the ones that were set after it.
use buff.Common.{◌≡◌, refl, ◌∙◌, ap, false, [], ◌∷◌, Bytes, bytes_eq, slt64, if◌then◌else◌}
use buff.Clip.Meta.{Meta}
use buff.Client.Opts.{PutOpts}
use buff.Client.Meta.{is_set}
use buff.Wire.Headers.{
  Header, get, set_if, header_kind, header_filename, header_executable, header_ttl, header_keep,
  header_consume, header_if_match, flag_on, Codec,
}
use buff.Client.Sending.{get_past, get_here}

module _ (k : Codec) (m : Meta) (o : PutOpts) where
  abbrev h_kind : Header
  h_kind = (header_kind, m.kind) ∷ []

  abbrev h_filename : Header
  h_filename = set_if (is_set m.filename) header_filename (k.escape m.filename) h_kind

  abbrev h_executable : Header
  h_executable = set_if m.executable header_executable flag_on h_filename

  abbrev h_ttl : Header
  h_ttl = set_if (slt64 0 o.ttl) header_ttl (k.show_duration o.ttl) h_executable

  abbrev h_keep : Header
  h_keep = set_if o.keep header_keep flag_on h_ttl

  abbrev h_consume : Header
  h_consume = set_if o.consume_once header_consume flag_on h_keep

  abbrev pub h_all : Header
  h_all = set_if (is_set o.if_match) header_if_match o.if_match h_consume

  past_match : (n : Bytes) → bytes_eq header_if_match n ≡ false → get h_all n ≡ get h_consume n
  past_match n e = get_past (is_set o.if_match) header_if_match o.if_match h_consume n e

  past_consume : (n : Bytes) → bytes_eq header_consume n ≡ false → get h_consume n ≡ get h_keep n
  past_consume n e = get_past o.consume_once header_consume flag_on h_keep n e

  past_keep : (n : Bytes) → bytes_eq header_keep n ≡ false → get h_keep n ≡ get h_ttl n
  past_keep n e = get_past o.keep header_keep flag_on h_ttl n e

  past_ttl : (n : Bytes) → bytes_eq header_ttl n ≡ false → get h_ttl n ≡ get h_executable n
  past_ttl n e = get_past (slt64 0 o.ttl) header_ttl (k.show_duration o.ttl) h_executable n e

  past_executable :
      (n : Bytes) → bytes_eq header_executable n ≡ false → get h_executable n ≡ get h_filename n
  past_executable n e = get_past m.executable header_executable flag_on h_filename n e

  past_filename : (n : Bytes) → bytes_eq header_filename n ≡ false → get h_filename n ≡ get h_kind n
  past_filename n e = get_past (is_set m.filename) header_filename (k.escape m.filename) h_kind n e

  pub sent_consume : get h_all header_consume ≡ (if o.consume_once then flag_on else [])
  unfolding get bytes_eq
  sent_consume =
      past_match _ refl
      ∙ get_here o.consume_once _ _ h_keep refl
      ∙ ap (λ (d : Bytes). if o.consume_once then flag_on else d)
          (past_keep _ refl ∙ past_ttl _ refl ∙ past_executable _ refl ∙ past_filename _ refl)

  pub sent_keep : get h_all header_keep ≡ (if o.keep then flag_on else [])
  unfolding get bytes_eq
  sent_keep =
      past_match _ refl
      ∙ past_consume _ refl
      ∙ get_here o.keep _ _ h_ttl refl
      ∙ ap (λ (d : Bytes). if o.keep then flag_on else d)
          (past_ttl _ refl ∙ past_executable _ refl ∙ past_filename _ refl)

  pub sent_ttl : get h_all header_ttl ≡ (if slt64 0 o.ttl then k.show_duration o.ttl else [])
  unfolding get bytes_eq
  sent_ttl =
      past_match _ refl
      ∙ past_consume _ refl
      ∙ past_keep _ refl
      ∙ get_here (slt64 0 o.ttl) _ _ h_executable refl
      ∙ ap (λ (d : Bytes). if slt64 0 o.ttl then k.show_duration o.ttl else d)
          (past_executable _ refl ∙ past_filename _ refl)

  pub sent_executable : get h_all header_executable ≡ (if m.executable then flag_on else [])
  unfolding get bytes_eq
  sent_executable =
      past_match _ refl
      ∙ past_consume _ refl
      ∙ past_keep _ refl
      ∙ past_ttl _ refl
      ∙ get_here m.executable _ _ h_filename refl
      ∙ ap (λ (d : Bytes). if m.executable then flag_on else d) (past_filename _ refl)

  pub sent_filename :
      get h_all header_filename ≡ (if is_set m.filename then k.escape m.filename else [])
  unfolding get bytes_eq
  sent_filename =
      past_match _ refl
      ∙ past_consume _ refl
      ∙ past_keep _ refl
      ∙ past_ttl _ refl
      ∙ past_executable _ refl
      ∙ get_here (is_set m.filename) _ _ h_kind refl

  pub sent_kind : get h_all header_kind ≡ m.kind
  unfolding get bytes_eq
  sent_kind =
      past_match _ refl
      ∙ past_consume _ refl
      ∙ past_keep _ refl
      ∙ past_ttl _ refl
      ∙ past_executable _ refl
      ∙ past_filename _ refl

  pub sent_match : get h_all header_if_match ≡ (if is_set o.if_match then o.if_match else [])
  unfolding get bytes_eq
  sent_match =
      get_here (is_set o.if_match) _ _ h_consume refl
      ∙ ap (λ (d : Bytes). if is_set o.if_match then o.if_match else d)
          (past_consume _ refl
            ∙ past_keep _ refl
            ∙ past_ttl _ refl
            ∙ past_executable _ refl
            ∙ past_filename _ refl)
