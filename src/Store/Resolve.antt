-- ===== src/Store/Resolve.antt =====
-- store/generation.go: which generation of a name a reader is given.
use buff.Common.{
  ℕ, ◌≡◌, Bool, true, false, not, ◌&&◌, Option, none, some, ◌⊎◌, ◌↔◌, Option-cases, Bool-cases, inl,
  inr, if◌then◌else◌, arith,
}
use buff.Clip.Errors.{Error, not_found, consumed}
use buff.Store.GenId.{GenId, is_after}
use buff.Store.Generation.{
  finalized, consumed as consumed_state, is_finalized, is_consumed, expired, past,
}
use buff.Store.State.{Store}

unfoldable pub present_current : Store → ℕ → ℕ → Option ℕ
unfolding expired
present_current s h now = elim (s.handles h).current [
  | none ↦ none
  | some g ↦ if is_finalized (s.heap g).state && not (expired (s.heap g) now) then some g else none
]

unfoldable pub expired_current : Store → ℕ → ℕ → Option ℕ
unfolding expired
expired_current s h now = elim (s.handles h).current [
  | none ↦ none
  | some g ↦ if is_finalized (s.heap g).state && expired (s.heap g) now then some g else none
]

-- The live generation, unless it is a secret.
abbrev followable : Store → Option ℕ → Option ℕ
followable s none = none
followable s (some g) = if not (s.heap g).consume then some g else none

abbrev pub current_consumed : Store → Option ℕ → Bool
current_consumed s none = false
current_consumed s (some g) = is_consumed (s.heap g).state

unfoldable pub resolve_read : Store → ℕ → ℕ → ℕ ⊎ Error
unfolding present_current
resolve_read s h now = elim (present_current s h now) [
  | some g ↦ inl g
  | none ↦ elim (followable s (s.handles h).live) [
    | some g ↦ inl g
    | none ↦ if current_consumed s (s.handles h).current then inr consumed else inr not_found
  ]
]

abbrev newer : Store → Option ℕ → GenId → Option ℕ
newer s none baseline = none
newer s (some g) baseline = if is_after (s.heap g).id baseline then some g else none

unfoldable pub follow_resolve : Store → ℕ → GenId → ℕ → ℕ ⊎ Error
unfolding present_current is_after
follow_resolve s h baseline now = elim (newer s (present_current s h now) baseline) [
  | some g ↦ inl g
  | none ↦ elim (followable s (s.handles h).live) [ some g ↦ inl g | none ↦ inr not_found ]
]

-- The current generation, finalized and not past its deadline.
abbrev pub IsCurrentValue : Store → ℕ → ℕ → ℕ → Type 0
IsCurrentValue s h now g =
    ((s.handles h).current ≡ some g)
    × ((s.heap g).state ≡ finalized)
    × (past (s.heap g).expires now ≡ false)

-- The generation that is being written, if it is not a secret.
abbrev pub IsOpenLog : Store → ℕ → ℕ → Type 0
IsOpenLog s h g = ((s.handles h).live ≡ some g) × ((s.heap g).consume ≡ false)

pub present_current_sound :
    (s : Store) (h now g : ℕ)
    → present_current s h now ≡ some g
    → ((s.handles h).current ≡ some g)
      × ((s.heap g).state ≡ finalized)
      × (past (s.heap g).expires now ≡ false)
unfolding present_current
present_current_sound s h now g e = ground arith

pub present_current_complete :
    (s : Store) (h now g : ℕ)
    → (s.handles h).current ≡ some g
    → (s.heap g).state ≡ finalized
    → past (s.heap g).expires now ≡ false
    → present_current s h now ≡ some g
unfolding present_current
present_current_complete s h now g a b c = ground arith

pub expired_current_sound :
    (s : Store) (h now g : ℕ)
    → expired_current s h now ≡ some g
    → ((s.handles h).current ≡ some g)
      × ((s.heap g).state ≡ finalized)
      × (past (s.heap g).expires now ≡ true)
unfolding expired_current
expired_current_sound s h now g e = ground arith

pub resolve_read_policy :
    (s : Store) (h now : ℕ)
    → ((g : ℕ) → IsCurrentValue s h now g → resolve_read s h now ≡ inl g)
      × ((g : ℕ)
          → resolve_read s h now ≡ inl g
          → IsCurrentValue s h now g ⊎ (IsOpenLog s h g × (present_current s h now ≡ none)))
      × ((e : Error)
          → resolve_read s h now ≡ inr e
          → ((g : ℕ) → ¬ IsCurrentValue s h now g)
            × ((g : ℕ) → ¬ IsOpenLog s h g)
            × (e ≡ (if current_consumed s (s.handles h).current then consumed else not_found)))
unfolding resolve_read
resolve_read_policy s h now = (
  λ g c. ground arith,
  λ g e. ground arith,
  λ e r. (λ g c. ground arith, λ g c. ground arith, ground arith),
)

abbrev pub NoValue : Store → ℕ → ℕ → Type 0
NoValue s h now = (g : ℕ) → ¬ IsCurrentValue s h now g

abbrev pub NoLog : Store → ℕ → Type 0
NoLog s h = (g : ℕ) → ¬ IsOpenLog s h g

-- The name's current generation was claimed.
abbrev pub IsSpent : Store → ℕ → Type 0
IsSpent s h = (g : ℕ) × ((s.handles h).current ≡ some g) × ((s.heap g).state ≡ consumed_state)

-- What a plain read of a name is to give.
abbrev pub ReadSpec : Store → ℕ → ℕ → ℕ ⊎ Error → Type 0
ReadSpec s h now (inl g) = IsCurrentValue s h now g ⊎ (NoValue s h now × IsOpenLog s h g)
ReadSpec s h now (inr e) =
    NoValue s h now
    × NoLog s h
    × ((IsSpent s h × (e ≡ consumed)) ⊎ ((¬ IsSpent s h) × (e ≡ not_found)))

IsSpent-cases :
    (s : Store) (h : ℕ)
    → (IsSpent s h × (current_consumed s (s.handles h).current ≡ true))
      ⊎ ((¬ IsSpent s h) × (current_consumed s (s.handles h).current ≡ false))
IsSpent-cases s h = elim (Option-cases (s.handles h).current) [
  | inl e ↦ inr (λ c. ground (arith, c.1), ground arith)
  | inr (g, e) ↦ elim (Bool-cases (is_consumed (s.heap g).state)) [
    | inl f ↦ inl ((g, e, ground arith), ground arith)
    | inr f ↦ inr (λ c. ground (arith, c.1, c.2), ground arith)
  ]
]

no_present : (s : Store) (h now : ℕ) → NoValue s h now → present_current s h now ≡ none
no_present s h now n = elim (Option-cases (present_current s h now)) [
  | inl e ↦ e
  | inr (g, e) ↦ absurd (n g (present_current_sound s h now g e))
]

no_followable : (s : Store) (h : ℕ) → NoLog s h → followable s (s.handles h).live ≡ none
no_followable s h n = elim (Option-cases (s.handles h).live) [
  | inl e ↦ ground arith
  | inr (g, e) ↦ elim (Bool-cases (s.heap g).consume) [
    | inl c ↦ ground arith
    | inr c ↦ absurd (n g (e, c))
  ]
]

read_value-ReadSpec :
    (s : Store) (h now g : ℕ) → (resolve_read s h now ≡ inl g) ↔ ReadSpec s h now (inl g)
unfolding resolve_read
read_value-ReadSpec s h now g = (
  λ e. elim ((resolve_read_policy s h now).1 g e) [
    | inl v ↦ inl v
    | inr (l, n) ↦ inr (λ c v. ground arith, l)
  ],
  λ d. elim d [ inl v ↦ ground arith | inr (n, l) ↦ ground (arith, no_present s h now n) ],
)

read_error-ReadSpec :
    (s : Store) (h now : ℕ) (e : Error) → (resolve_read s h now ≡ inr e) ↔ ReadSpec s h now (inr e)
unfolding resolve_read
read_error-ReadSpec s h now e = (
  λ r.
      let (n, l, x) = (resolve_read_policy s h now).2 e r in
      (
        n,
        l,
        elim (IsSpent-cases s h) [
          | inl (c, q) ↦ inl (c, ground arith)
          | inr (c, q) ↦ inr (c, ground arith)
        ],
      ),
  λ (n, l, x).
      let p = no_present s h now n in
      let f = no_followable s h l in
      elim (IsSpent-cases s h) [
        | inl (c, q) ↦ elim x [ inl (_, y) ↦ ground arith | inr (z, _) ↦ absurd (z c) ]
        | inr (c, q) ↦ elim x [ inl (z, _) ↦ absurd (c z) | inr (_, y) ↦ ground arith ]
      ],
)

-- A plain read of a name resolves exactly as specified: to the current generation, if that is
-- finalized and not past its deadline; else to the log that is being written, unless that is a
-- secret; else it fails, as consumed if the current generation was claimed, and as not found if it
-- was not.
pub resolve_read_iff :
    (s : Store) (h now : ℕ) (r : ℕ ⊎ Error) → (resolve_read s h now ≡ r) ↔ ReadSpec s h now r
resolve_read_iff s h now (inl g) = read_value-ReadSpec s h now g
resolve_read_iff s h now (inr e) = read_error-ReadSpec s h now e

-- What a follow of the next value gets is either the current value, of an id that sorts after the
-- baseline, or the log that is being written, where that is no secret.
pub follow_resolve_skips :
    (s : Store) (h now g : ℕ) (baseline : GenId)
    → follow_resolve s h baseline now ≡ inl g
    → (IsCurrentValue s h now g × (is_after (s.heap g).id baseline ≡ true)) ⊎ IsOpenLog s h g
unfolding follow_resolve
follow_resolve_skips s h now g baseline e = ground arith
