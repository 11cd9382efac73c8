-- ===== src/Cli/Parse/Accepted/Result.antt =====
-- What `parseArgs` accepts, and that it drops nothing.
use buff.Common.{
  ℕ, ◌≡◌, refl, subst, ◌==◌, Bool, Option, ◌⊎◌, inl, inr, List, Bytes, arith, ltb, length,
  Sum-cases,
}
use buff.Cli.Flags.{OnSuccess, action_help, UsageError}
use buff.Cli.Scan.{Tokens, scan}
use buff.Cli.Scan.Named.{IsScanned, scan-IsScanned}
use buff.Cli.Parse.{Invocation, management_action, parse, parse_args}
use buff.Cli.Parse.Accepted.{IsCommand, IsComplete, Accepts, guarded, branched}
use buff.Cli.Parse.Accepted.Transfer.{parse_transfer-Accepts}
use buff.Cli.Parse.Accepted.Management.{parse_manage-Accepts, picks-IsManaged}

parse-Accepts : (t : Tokens) (tty : Bool) → IsScanned t → OnSuccess (Accepts t tty) (parse t tty)
unfolding parse management_action
parse-Accepts t tty v =
    let f = t.flags in
    let r = management_action f in
    branched (Accepts t tty) f.help _ _ (λ h. (refl, inl refl))
      λ h. guarded (Accepts t tty) (ltb 1 (length t.slots)) _ _ λ l.
        guarded (Accepts t tty) (ltb 1 r.0) _ _ λ m.
          branched (Accepts t tty) (r.0 == 1) _ _
            (λ e.
              parse_manage-Accepts t tty r.1
                (picks-IsManaged f.list f.delete f.stat f.version (ground arith)) v)
            (λ e. parse_transfer-Accepts t tty l v)

first_OnSuccess :
    {A : Type 0} (P Q : A → Type 0) (r : A ⊎ UsageError)
    → OnSuccess (λ a. P a × Q a) r
    → OnSuccess P r
first_OnSuccess P Q (inl a) h = h.0
first_OnSuccess P Q (inr e) h = tt

parse_args-IsCommand :
    (pd : Bytes → Option ℕ) (args : List Bytes) (tty : Bool)
    → OnSuccess (IsCommand tty) (parse_args pd args tty)
unfolding parse_args
parse_args-IsCommand pd args tty = elim (Sum-cases (scan pd args)) [
  | inr (x, e) ↦ rw (e, parse_args) tt
  | inl (t, e) ↦
      rw (e, parse_args)
        (first_OnSuccess (IsCommand tty) (λ i. (i.act ≡ action_help) ⊎ IsComplete t i) (parse t tty)
          (parse-Accepts t tty (subst (OnSuccess IsScanned) e (scan-IsScanned pd args))))
]

-- Every invocation that the arguments give is one that its action can run: a copy has exactly one
-- source, a retention that is not negative and not given twice, and no option of a read; a paste
-- has no source and no option of a write; a list or a version has no target, a delete or a stat has
-- one, and none of them an option of a transfer; and no slot is without a name.
pub parse_args_lem :
    (pd : Bytes → Option ℕ) (args : List Bytes) (in_is_tty : Bool) (i : Invocation)
    → parse_args pd args in_is_tty ≡ inl i
    → IsCommand in_is_tty i
parse_args_lem pd args tty i e =
    subst (OnSuccess (IsCommand tty)) e (parse_args-IsCommand pd args tty)

-- The grammar drops nothing: of the tokens of a scan, an accepted invocation that is not a plea for
-- help has all the paths, in their order, and the one slot, if there is one.
pub parse-IsComplete :
    (pd : Bytes → Option ℕ) (args : List Bytes) (t : Tokens) (in_is_tty : Bool) (i : Invocation)
    → scan pd args ≡ inl t
    → parse t in_is_tty ≡ inl i
    → (i.act ≡ action_help) ⊎ IsComplete t i
parse-IsComplete pd args t tty i e f =
    let v = subst (OnSuccess IsScanned) e (scan-IsScanned pd args) in
    (subst (OnSuccess (Accepts t tty)) f (parse-Accepts t tty v)).1
