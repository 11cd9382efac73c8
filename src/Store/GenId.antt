-- ===== src/Store/GenId.antt =====
-- store/genid.go: the time-sortable id of a generation, as its two big-endian uint64 halves.
use buff.Clip.Errors.{Error}
use buff.Common.{
  ◌⊎◌, inl, inr, ℕ, zero, suc, ◌+◌, ◌/◌, ◌%◌, ◌≤◌, ◌<◌, ◌≡◌, Bool, true, not, [], ◌∷◌, ◌++◌, arith,
  Bytes, word, ltb, leb, ◌==◌, if◌then◌else◌, ◌&&◌, refl, ◌-◌,
}

pub record GenId : Type 0 where
  pub prefix : ℕ
  pub tail : ℕ

abbrev pub zero_id : GenId
zero_id = record { prefix = 0; tail = 0 }

-- The new counter of a name: the clock, but past the last one issued; uint64 arithmetic.
unfoldable pub next_prefix : ℕ → ℕ → ℕ
next_prefix now last_prefix =
    let prefix = now % word in if leb prefix last_prefix then (last_prefix + 1) % word else prefix

-- `allocate`: the id and the advanced seed, or the error of the random source.
unfoldable pub allocate : ℕ → ℕ ⊎ Error → ℕ → (GenId × ℕ) ⊎ Error
unfolding next_prefix
allocate now random last_prefix = elim random [
  | inr e ↦ inr e
  | inl tail ↦
      inl
        (record { prefix = next_prefix now last_prefix; tail = tail }, next_prefix now last_prefix)
]

-- Whether the first id names a more recent generation.
unfoldable pub is_after : GenId → GenId → Bool
is_after id other =
    if not (id.prefix == other.prefix) then ltb other.prefix id.prefix else ltb other.tail id.tail

abbrev pub id_eq : GenId → GenId → Bool
id_eq a b = a.prefix == b.prefix && a.tail == b.tail

unfoldable pub hex_digit : ℕ → ℕ
hex_digit d = if ltb d 10 then b'0' + d else b'a' + d - 10

-- The `n` low hexadecimal digits of a number, the most significant first.
unfoldable pub hex : ℕ → ℕ → Bytes
unfolding hex_digit
hex zero x = []
hex (suc n) x = hex n (x / 16) ++ hex_digit (x % 16) ∷ []

-- `String`: 32 lowercase hexadecimal characters.
unfoldable pub id_string : GenId → Bytes
unfolding hex
id_string id = hex 16 id.prefix ++ hex 16 id.tail

-- An id that a name mints, from a clock and a seed that have not run out, sorts after every id up
-- to its seed, whatever the clock says; and the seed becomes the new id's own counter.
pub allocate_after :
    (now last_prefix tail : ℕ) (old : GenId)
    → now < word
    → last_prefix + 1 < word
    → old.prefix ≤ last_prefix
    → (id : GenId) × (seed : ℕ) × (allocate now (inl tail) last_prefix ≡ inl (id, seed))
      × (is_after id old ≡ true)
      × (id.prefix ≡ seed)
      × (last_prefix < seed)
unfolding allocate is_after
allocate_after now last_prefix tail old h k w =
    let id : GenId = record { prefix = next_prefix now last_prefix; tail = tail } in
    (id, next_prefix now last_prefix, refl, ground arith, refl, ground arith)
