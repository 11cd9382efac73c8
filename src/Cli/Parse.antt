-- ===== src/Cli/Parse.antt =====
-- cli/parse.go: the grammar over the scanned tokens.
pub mod Accepted
use buff.Common.{
  ℕ, ◌+◌, ◌==◌, Bool, true, false, not, ◌&&◌, ◌||◌, Option, ◌⊎◌, inl, inr, List, [], ◌∷◌, Bytes,
  codes, ltb, length, if◌then◌else◌,
}
use buff.Client.Opts.{PutOpts, GetOpts, no_put, no_get}
use buff.Cli.Flags.{
  Flags, Action, action_copy, action_paste, action_list, action_delete, action_stat, action_version,
  action_help, UsageError, too_many_slots, conflicting_actions, force_with_action, copy_only,
  output_misplaced, wait_misplaced, follow_next_misplaced, keep_with_ttl, takes_no_target,
  needs_slot_not_path, needs_one_slot, forces_conflict, paste_with_paths, two_sources,
  nothing_to_copy,
}
use buff.Cli.Scan.{Tokens, scan}

pub record Invocation : Type 0 where
  pub act : Action
  pub slot : Bytes
  pub paths : List Bytes
  pub output : Bytes
  pub output_set : Bool
  pub get : GetOpts
  pub put : PutOpts
  pub server : Bytes
  pub server_set : Bool

abbrev pub bare : Action → Invocation
bare act = record {
  act = act;
  slot = [];
  paths = [];
  output = [];
  output_set = false;
  get = no_get;
  put = no_put;
  server = [];
  server_set = false;
}

-- The invocation of an action and the server that the flags name.
abbrev pub based : Action → Flags → Invocation
based act f = record (bare act) { server = f.server; server_set = f.server_set }

abbrev pub is_empty {ℓ} : {A : Type ℓ} → List A → Bool
is_empty [] = true
is_empty (a ∷ s) = false

abbrev pub picked : Bool → Action → ℕ × Action → ℕ × Action
picked true a (n, b) = (n + 1, a)
picked false a r = r

unfoldable pub management_action : Flags → ℕ × Action
management_action f = picked f.version action_version (
    picked f.stat action_stat
      (picked f.delete action_delete (picked f.list action_list (0, action_copy))))

abbrev pub has_copy_options : Flags → Bool
has_copy_options f = f.ttl_set || f.keep || f.consume || f.if_match_set

abbrev pub is_listing : Action → Bool
is_listing action_list = true
is_listing action_version = true
is_listing a = false

-- The target of a management action.
abbrev pub one_slot : Action → Flags → List Bytes → Invocation ⊎ UsageError
one_slot act f (slot ∷ []) = inl (record (based act f) { slot = slot })
one_slot act f slots = inr (needs_one_slot act)

unfoldable pub parse_manage : Action → Tokens → Invocation ⊎ UsageError
parse_manage act t =
    if t.flags.copy || t.flags.paste
    then inr force_with_action
    else if has_copy_options t.flags
    then inr copy_only
    else if t.flags.output_set
    then inr output_misplaced
    else if t.flags.wait
    then inr wait_misplaced
    else if t.flags.follow_next
    then inr follow_next_misplaced
    else if is_listing act
    then (if not (is_empty t.slots) || not (is_empty t.paths)
        then inr (takes_no_target act)
        else inl (based act t.flags))
    else if not (is_empty t.paths)
    then inr (needs_slot_not_path act)
    else one_slot act t.flags t.slots

unfoldable pub mode : Bool → Bool → Bool → Bool → Action ⊎ UsageError
mode has_paths stdin_piped force_copy force_paste =
    if force_copy && force_paste
    then inr forces_conflict
    else if force_paste
    then (if has_paths then inr paste_with_paths else inl action_paste)
    else if has_paths && stdin_piped
    then inr two_sources
    else if has_paths
    then inl action_copy
    else if stdin_piped
    then inl action_copy
    else if force_copy
    then inr nothing_to_copy
    else inl action_paste

abbrev pub or_default : List Bytes → Bytes
or_default (slot ∷ []) = slot
or_default slots = codes "default"

-- The end of `parse` for a paste, and for a copy.
unfoldable pub parse_paste : Tokens → Invocation ⊎ UsageError
parse_paste t =
    if has_copy_options t.flags
    then inr copy_only
    else inl (record (based action_paste t.flags) {
      output = t.flags.output;
      output_set = t.flags.output_set;
      get = record { wait = t.flags.wait; follow_next = t.flags.follow_next };
      slot = or_default t.slots;
    })

unfoldable pub parse_copy : Tokens → Invocation ⊎ UsageError
parse_copy t =
    if t.flags.output_set
    then inr output_misplaced
    else if t.flags.wait
    then inr wait_misplaced
    else if t.flags.follow_next
    then inr follow_next_misplaced
    else if t.flags.keep && t.flags.ttl_set
    then inr keep_with_ttl
    else inl (record (based action_copy t.flags) {
      paths = t.paths;
      put = record {
        ttl = t.flags.ttl;
        keep = t.flags.keep;
        consume_once = t.flags.consume;
        if_match = t.flags.if_match;
      };
      slot = or_default t.slots;
    })

abbrev pub is_paste : Action → Bool
is_paste action_paste = true
is_paste a = false

unfoldable pub parse_transfer : Tokens → Bool → Invocation ⊎ UsageError
unfolding mode parse_paste parse_copy
parse_transfer t in_is_tty =
    elim (mode (not (is_empty t.paths)) (not in_is_tty) t.flags.copy t.flags.paste) [
      | inr e ↦ inr e
      | inl act ↦ if is_paste act then parse_paste t else parse_copy t
    ]

unfoldable pub parse : Tokens → Bool → Invocation ⊎ UsageError
unfolding management_action parse_manage parse_transfer
parse t in_is_tty =
    if t.flags.help
    then inl (bare action_help)
    else if ltb 1 (length t.slots)
    then inr (too_many_slots t.slots)
    else (let (n, act) = management_action t.flags in
        if ltb 1 n
        then inr conflicting_actions
        else if n == 1
        then parse_manage act t
        else parse_transfer t in_is_tty)

unfoldable pub parse_args : (Bytes → Option ℕ) → List Bytes → Bool → Invocation ⊎ UsageError
unfolding scan parse
parse_args parse_duration args in_is_tty = elim (scan parse_duration args) [
  | inr e ↦ inr e
  | inl t ↦ parse t in_is_tty
]
