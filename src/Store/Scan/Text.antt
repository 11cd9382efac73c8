-- ===== src/Store/Scan/Text.antt =====
-- The texts that a record is made of: hexadecimal ids and checksums are ASCII.
use mathlib.Core.List.{append-nil, append_assoc}
use buff.Common.{
  ℕ, zero, suc, ◌/◌, ◌%◌, ◌<◌, ◌≡◌, refl, true, none, length, [], ◌∷◌, ◌++◌, Bytes, arith, codes,
  subst,
}
use buff.Clip.Name.{
  utf8_valid, utf8_valid-cons, valid_name, valid_name-IsSlotName, valid_filename_iff,
}
use buff.Store.GenId.{GenId, hex, hex_digit, id_string}
use buff.Store.Recovery.{length-hex}
use buff.Store.Disk.Commit.{checksum_text}

hex_digit_ascii : (d : ℕ) → d < 16 → hex_digit d < 128
unfolding hex_digit
hex_digit_ascii d h = ground arith

hex_text : (n x : ℕ) (rest : Bytes) → utf8_valid rest ≡ true → utf8_valid (hex n x ++ rest) ≡ true
unfolding hex
hex_text zero x rest h = h
hex_text (suc n) x rest h = rw (append_assoc (hex n (x / 16)) (hex_digit (x % 16) ∷ []) rest) (
    hex_text n (x / 16) (hex_digit (x % 16) ∷ rest)
      (utf8_valid-cons (hex_digit (x % 16)) rest (hex_digit_ascii (x % 16) (omega arith)) h))

empty_text : utf8_valid [] ≡ true
unfolding utf8_valid
empty_text = refl

pub id_string_text : (id : GenId) → utf8_valid (id_string id) ≡ true
unfolding id_string
id_string_text id = hex_text 16 id.prefix (hex 16 id.tail) (
    subst (λ s. utf8_valid s ≡ true) (append-nil (hex 16 id.tail))
      (hex_text 16 id.tail [] empty_text))

pub checksum_text_text : (sum : ℕ) → utf8_valid (checksum_text sum) ≡ true
unfolding checksum_text
checksum_text_text sum =
    let t = hex 8 sum in
    let u = subst (λ s. utf8_valid s ≡ true) (append-nil t) (hex_text 8 sum [] empty_text) in
    let cons = utf8_valid-cons in
    cons b'c' (codes "rc32c:" ++ t) (omega arith) (
      cons b'r' (codes "c32c:" ++ t) (omega arith) (
        cons b'c' (codes "32c:" ++ t) (omega arith) (
          cons b'3' (codes "2c:" ++ t) (omega arith) (
            cons b'2' (codes "c:" ++ t) (omega arith)
              (cons b'c' (codes ":" ++ t) (omega arith) (cons b':' t (omega arith) u))))))

pub valid_name_text : (name : Bytes) → valid_name name ≡ none → utf8_valid name ≡ true
valid_name_text name v = ((valid_filename_iff name).0.0 (valid_name-IsSlotName name v).safe).text

pub length-checksum_text : (sum : ℕ) → length (checksum_text sum) ≡ 15
unfolding checksum_text
length-checksum_text sum = omega (arith, length-hex 8 sum)
