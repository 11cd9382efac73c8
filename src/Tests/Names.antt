-- ===== src/Tests/Names.antt =====
-- Names and file names.
use buff.Common.{◌≡◌, refl, ◌↔◌, ◌⊎◌, none, some, Bytes, codes, bytes_eq}
use buff.Clip.Errors.{filename_invalid}
use buff.Clip.Name.{
  valid_name, valid_filename, IsSlotName, IsComponent, valid_name-IsSlotName, valid_filename_iff,
}

abbrev slot : Bytes
slot = codes "build-7.log"

valid_name-IsSlotName_example : IsSlotName slot
valid_name-IsSlotName_example = valid_name-IsSlotName slot (unfold valid_name in refl)

abbrev climbing : Bytes
climbing = codes "../etc"

climbing_refused : valid_filename climbing ≡ some filename_invalid
unfolding valid_filename bytes_eq
climbing_refused = refl

valid_filename_iff_example :
    ((valid_filename climbing ≡ none) ↔ IsComponent climbing)
    × ((valid_filename climbing ≡ none) ⊎ (valid_filename climbing ≡ some filename_invalid))
valid_filename_iff_example = valid_filename_iff climbing
