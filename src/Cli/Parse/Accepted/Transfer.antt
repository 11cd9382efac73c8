-- ===== src/Cli/Parse/Accepted/Transfer.antt =====
-- The transfers that the grammar accepts.
use buff.Common.{
  ◌≡◌, refl, sym, subst, Bool, true, false, not, ◌&&◌, ◌⊎◌, inl, inr, [], arith, ltb, length,
  Sum-cases,
}
use buff.Cli.Flags.{OnSuccess, Action, action_copy, action_paste}
use buff.Cli.Scan.{Tokens}
use buff.Cli.Scan.Named.{IsScanned}
use buff.Cli.Parse.{is_empty, has_copy_options, mode, parse_paste, parse_copy, parse_transfer}
use buff.Cli.Parse.Accepted.{Accepts, guarded, or_default_named, or_default_all, is_empty-nil}

parse_paste-Accepts :
    (t : Tokens) (tty : Bool)
    → t.paths ≡ []
    → ltb 1 (length t.slots) ≡ false
    → IsScanned t
    → OnSuccess (Accepts t tty) (parse_paste t)
unfolding parse_paste
parse_paste-Accepts t tty p l v = guarded (Accepts t tty) (has_copy_options t.flags) _ _ λ e. (
  record {
    named = or_default_named t.slots v.named;
    no_source = refl;
    no_write = refl;
    output_named = v.values.output_named;
  },
  inr (record { all_paths = sym p; all_slots = or_default_all t.slots l }),
)

parse_copy-Accepts :
    (t : Tokens) (tty : Bool)
    → is_empty t.paths ≡ not tty
    → ltb 1 (length t.slots) ≡ false
    → IsScanned t
    → OnSuccess (Accepts t tty) (parse_copy t)
unfolding parse_copy
parse_copy-Accepts t tty s l v = guarded (Accepts t tty) t.flags.output_set _ _ λ o.
    guarded (Accepts t tty) t.flags.wait _ _ λ w.
      guarded (Accepts t tty) t.flags.follow_next _ _ λ f.
        guarded (Accepts t tty) (t.flags.keep && t.flags.ttl_set) _ _ λ k. (
          record {
            named = or_default_named t.slots v.named;
            one_source = s;
            no_output = refl;
            no_read = refl;
            ttl_signed = v.values.ttl_signed;
            one_retention = λ q. v.values.ttl_unset (ground arith);
          },
          inr (record { all_paths = refl; all_slots = or_default_all t.slots l }),
        )

-- Which way the paths, the piped input and the forces decide.
abbrev pub Direction : Bool → Bool → Action → Type 0
Direction has_paths stdin_piped act =
    ((act ≡ action_paste) × (has_paths ≡ false))
    ⊎ ((act ≡ action_copy) × (has_paths ≡ not stdin_piped))

mode-Direction :
    (has_paths stdin_piped force_copy force_paste : Bool)
    → OnSuccess
        (Direction has_paths stdin_piped)
        (mode has_paths stdin_piped force_copy force_paste)
unfolding mode
mode-Direction a b true true = tt
mode-Direction true b false true = tt
mode-Direction false b false true = inl (refl, refl)
mode-Direction true true true false = tt
mode-Direction true true false false = tt
mode-Direction true false true false = inr (refl, refl)
mode-Direction true false false false = inr (refl, refl)
mode-Direction false true true false = inr (refl, refl)
mode-Direction false true false false = inr (refl, refl)
mode-Direction false false true false = tt
mode-Direction false false false false = inl (refl, refl)

pub parse_transfer-Accepts :
    (t : Tokens) (tty : Bool)
    → ltb 1 (length t.slots) ≡ false
    → IsScanned t
    → OnSuccess (Accepts t tty) (parse_transfer t tty)
unfolding parse_transfer
parse_transfer-Accepts t tty l v =
    let d = mode-Direction (not (is_empty t.paths)) (not tty) t.flags.copy t.flags.paste in
    elim (Sum-cases (mode (not (is_empty t.paths)) (not tty) t.flags.copy t.flags.paste)) [
      | inr (x, e) ↦ rw (e, parse_transfer) tt
      | inl (act, e) ↦ elim (subst (OnSuccess (Direction (not (is_empty t.paths)) (not tty))) e d) [
        | inl (a, h) ↦
            rw (e, parse_transfer, a)
              (parse_paste-Accepts t tty (is_empty-nil t.paths (ground arith)) l v)
        | inr (a, h) ↦ rw (e, parse_transfer, a) (parse_copy-Accepts t tty (ground arith) l v)
      ]
    ]
