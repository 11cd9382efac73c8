-- ===== src/Client/Receiving/Layers.antt =====
-- api/framing.go (`setClipMeta`): what each header of a described clip says.
use buff.Common.{
  ℕ, ◌≡◌, refl, ap, ◌∙◌, Bool, true, false, Option, none, some, [], Bytes, bytes_eq, if◌then◌else◌,
}
use buff.Clip.Meta.{Clip}
use buff.Wire.Headers.{
  Header, get, set_if, header_kind, header_filename, header_executable, header_consume, Codec,
}
use buff.Wire.Responses.{
  header_generation, header_finalized, header_size, header_expires, bool_true, format_bool, Clock,
}
use buff.Api.Framing.{set_clip_meta, itoa, is_present, set_expires}
use buff.Client.Sending.{get_past, get_here}

past_expires :
    (k : Clock) (f : Bool) (o : Option ℕ) (h : Header) (name : Bytes)
    → bytes_eq header_expires name ≡ false
    → get (set_expires k f o h) name ≡ get h name
past_expires k f none h name e = refl
past_expires k f (some t) h name e = get_past f header_expires (k.format_time t) h name e

-- The layers of `setClipMeta`, from the first one on.
module _ (k : Codec) (clock : Clock) (c : Clip) (h : Header) where
  abbrev pub layer_kind : Header
  layer_kind =
      set_if true header_kind c.metadata.kind (set_if true header_generation c.generation h)

  abbrev pub layer_finalized : Header
  layer_finalized = set_if true header_finalized (format_bool c.finalized) layer_kind

  abbrev pub layer_consume : Header
  layer_consume = set_if true header_consume (format_bool c.consume_once) layer_finalized

  abbrev pub layer_filename : Header
  layer_filename =
      set_if (is_present c.metadata.filename) header_filename (k.escape c.metadata.filename)
        layer_consume

  abbrev pub layer_executable : Header
  layer_executable = set_if c.metadata.executable header_executable bool_true layer_filename

  abbrev pub layer_size : Header
  layer_size = set_if c.finalized header_size (itoa c.size) layer_executable

  -- What is under the last three layers, by name.
  get_under :
      (name : Bytes)
      → bytes_eq header_executable name ≡ false
      → bytes_eq header_size name ≡ false
      → bytes_eq header_expires name ≡ false
      → get (set_clip_meta k clock c h) name ≡ get layer_filename name
  unfolding set_clip_meta
  get_under name a b d =
      past_expires clock c.finalized c.expires_at layer_size name d
      ∙ get_past c.finalized header_size (itoa c.size) layer_executable name b
      ∙ get_past c.metadata.executable header_executable bool_true layer_filename name a

  get_lowest :
      (name : Bytes)
      → bytes_eq header_executable name ≡ false
      → bytes_eq header_size name ≡ false
      → bytes_eq header_expires name ≡ false
      → bytes_eq header_filename name ≡ false
      → get (set_clip_meta k clock c h) name ≡ get layer_consume name
  get_lowest name a b d e =
      get_under name a b d
      ∙ get_past (is_present c.metadata.filename) header_filename (k.escape c.metadata.filename)
          layer_consume name e

  pub get_generation : get (set_clip_meta k clock c h) header_generation ≡ c.generation
  unfolding get bytes_eq
  get_generation = get_lowest header_generation refl refl refl refl

  pub get_kind : get (set_clip_meta k clock c h) header_kind ≡ c.metadata.kind
  unfolding get bytes_eq
  get_kind = get_lowest header_kind refl refl refl refl

  pub get_finalized : get (set_clip_meta k clock c h) header_finalized ≡ format_bool c.finalized
  unfolding get bytes_eq
  get_finalized = get_lowest header_finalized refl refl refl refl

  pub get_consume : get (set_clip_meta k clock c h) header_consume ≡ format_bool c.consume_once
  unfolding get bytes_eq
  get_consume = get_lowest header_consume refl refl refl refl

  pub get_filename :
      get h header_filename ≡ []
      → get (set_clip_meta k clock c h) header_filename
        ≡ (if is_present c.metadata.filename then k.escape c.metadata.filename else [])
  unfolding get bytes_eq
  get_filename e =
      get_under header_filename refl refl refl
      ∙ get_here (is_present c.metadata.filename) header_filename (k.escape c.metadata.filename)
          layer_consume refl
      ∙ ap (λ o. if is_present c.metadata.filename then k.escape c.metadata.filename else o) e

  pub get_executable :
      get h header_executable ≡ []
      → get (set_clip_meta k clock c h) header_executable
        ≡ (if c.metadata.executable then bool_true else [])
  unfolding get bytes_eq set_clip_meta
  get_executable e =
      past_expires clock c.finalized c.expires_at layer_size header_executable refl
      ∙ get_past c.finalized header_size (itoa c.size) layer_executable header_executable refl
      ∙ get_here c.metadata.executable header_executable bool_true layer_filename refl
      ∙ ap (λ o. if c.metadata.executable then bool_true else o)
          (get_past (is_present c.metadata.filename) header_filename (k.escape c.metadata.filename)
              layer_consume header_executable refl
            ∙ e)

  pub get_size : c.finalized ≡ true → get (set_clip_meta k clock c h) header_size ≡ itoa c.size
  unfolding get bytes_eq set_clip_meta
  get_size f =
      past_expires clock c.finalized c.expires_at layer_size header_size refl
      ∙ get_here c.finalized header_size (itoa c.size) layer_executable refl
      ∙ ap (λ b. if b then itoa c.size else get layer_executable header_size) f
