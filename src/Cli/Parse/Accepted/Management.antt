-- ===== src/Cli/Parse/Accepted/Management.antt =====
-- The management actions that the grammar accepts.
use buff.Common.{
  ◌≡◌, refl, sym, Bool, true, false, not, ◌||◌, ◌⊎◌, inl, inr, List, [], ◌∷◌, Bytes, arith,
}
use buff.Cli.Flags.{
  OnSuccess, Action, action_copy, action_paste, action_list, action_delete, action_stat,
  action_version, action_help,
}
use buff.Cli.Scan.{Tokens}
use buff.Cli.Scan.Named.{AllNamed, IsScanned}
use buff.Cli.Parse.{based, is_empty, picked, has_copy_options, is_listing, one_slot, parse_manage}
use buff.Cli.Parse.Accepted.{Accepts, guarded, branched, is_empty-nil}

listed-Accepts :
    (t : Tokens) (tty : Bool) (act : Action)
    → is_listing act ≡ true
    → (not (is_empty t.slots) || not (is_empty t.paths)) ≡ false
    → Accepts t tty (based act t.flags)
listed-Accepts t tty action_list a h = (
  (record { no_source = refl; no_output = refl; no_write = refl; no_read = refl }, refl),
  inr (record {
    all_paths = sym (is_empty-nil t.paths (ground arith));
    all_slots = inl (is_empty-nil t.slots (ground arith));
  }),
)
listed-Accepts t tty action_version a h = (
  (record { no_source = refl; no_output = refl; no_write = refl; no_read = refl }, refl),
  inr (record {
    all_paths = sym (is_empty-nil t.paths (ground arith));
    all_slots = inl (is_empty-nil t.slots (ground arith));
  }),
)
listed-Accepts t tty action_copy a h = cc
listed-Accepts t tty action_paste a h = cc
listed-Accepts t tty action_delete a h = cc
listed-Accepts t tty action_stat a h = cc
listed-Accepts t tty action_help a h = cc

-- The actions that have a target.
pub data IsTargeted : Action → Type 0 where
  deletes : IsTargeted action_delete
  stats : IsTargeted action_stat

one_slot-Accepts :
    (t : Tokens) (tty : Bool) (act : Action) (slots : List Bytes)
    → IsTargeted act
    → t.slots ≡ slots
    → t.paths ≡ []
    → AllNamed slots
    → OnSuccess (Accepts t tty) (one_slot act t.flags slots)
one_slot-Accepts t tty action_delete [] deletes e p a = tt
one_slot-Accepts t tty action_delete (s ∷ u ∷ rest) deletes e p a = tt
one_slot-Accepts t tty action_delete (s ∷ []) deletes e p (n, a) = (
  (record { no_source = refl; no_output = refl; no_write = refl; no_read = refl }, n),
  inr (record { all_paths = sym p; all_slots = inr e }),
)
one_slot-Accepts t tty action_stat [] stats e p a = tt
one_slot-Accepts t tty action_stat (s ∷ u ∷ rest) stats e p a = tt
one_slot-Accepts t tty action_stat (s ∷ []) stats e p (n, a) = (
  (record { no_source = refl; no_output = refl; no_write = refl; no_read = refl }, n),
  inr (record { all_paths = sym p; all_slots = inr e }),
)
one_slot-Accepts t tty action_copy slots x e p a = elim x [ ]
one_slot-Accepts t tty action_paste slots x e p a = elim x [ ]
one_slot-Accepts t tty action_list slots x e p a = elim x [ ]
one_slot-Accepts t tty action_version slots x e p a = elim x [ ]
one_slot-Accepts t tty action_help slots x e p a = elim x [ ]

-- What one management flag selects.
abbrev pub IsManaged : Action → Type 0
IsManaged act = (is_listing act ≡ true) ⊎ ((is_listing act ≡ false) × IsTargeted act)

IsManaged-IsTargeted : (act : Action) → IsManaged act → is_listing act ≡ false → IsTargeted act
IsManaged-IsTargeted act (inl a) l = cc
IsManaged-IsTargeted act (inr (a, i)) l = i

pub parse_manage-Accepts :
    (t : Tokens) (tty : Bool) (act : Action)
    → IsManaged act
    → IsScanned t
    → OnSuccess (Accepts t tty) (parse_manage act t)
unfolding parse_manage
parse_manage-Accepts t tty act m v =
    guarded (Accepts t tty) (t.flags.copy || t.flags.paste) _ _ λ a.
      guarded (Accepts t tty) (has_copy_options t.flags) _ _ λ b.
        guarded (Accepts t tty) t.flags.output_set _ _ λ c.
          guarded (Accepts t tty) t.flags.wait _ _ λ d.
            guarded (Accepts t tty) t.flags.follow_next _ _ λ e.
              branched (Accepts t tty) (is_listing act) _ _
                (λ l.
                  guarded (Accepts t tty) (not (is_empty t.slots) || not (is_empty t.paths)) _ _
                    λ h. listed-Accepts t tty act l h)
                (λ l. guarded (Accepts t tty) (not (is_empty t.paths)) _ _ λ h.
                  one_slot-Accepts t tty act t.slots (IsManaged-IsTargeted act m l) refl
                    (is_empty-nil t.paths (ground arith)) v.named)

pub picks-IsManaged :
    (l d s v : Bool)
    → let r =
        picked v action_version
          (picked s action_stat (picked d action_delete (picked l action_list (0, action_copy)))) in
      r.0 ≡ 1 → IsManaged r.1
picks-IsManaged true true true true h = ground arith
picks-IsManaged true true true false h = ground arith
picks-IsManaged true true false true h = ground arith
picks-IsManaged true true false false h = ground arith
picks-IsManaged true false true true h = ground arith
picks-IsManaged true false true false h = ground arith
picks-IsManaged true false false true h = ground arith
picks-IsManaged true false false false h = inl refl
picks-IsManaged false true true true h = ground arith
picks-IsManaged false true true false h = ground arith
picks-IsManaged false true false true h = ground arith
picks-IsManaged false true false false h = inr (refl, deletes)
picks-IsManaged false false true true h = ground arith
picks-IsManaged false false true false h = inr (refl, stats)
picks-IsManaged false false false true h = inl refl
picks-IsManaged false false false false h = ground arith
