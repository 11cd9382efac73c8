-- ===== src/Tests/Commands.antt =====
-- Command lines, and errors that cross the wire.
use buff.Common.{
  ℕ, ◌≡◌, refl, ◌⊎◌, true, false, Option, some, List, [], ◌∷◌, Bytes, codes, bytes_eq, inl,
}
use buff.Clip.Errors.{Error, is, wrap, busy, fault}
use buff.Api.Errors.{map_err}
use buff.Client.Errors.{across, is-across, busy_shared, response_error}
use buff.Cli.Exit.{error_code}
use buff.Cli.Flags.{action_copy, action_help, set_flag, split_flag, find_spec, flag_specs, set_ttl}
use buff.Cli.Scan.{Tokens, scan, scan_from, scan_one, add_positional}
use buff.Cli.Parse.{
  Invocation, parse, parse_args, parse_transfer, parse_copy, mode, management_action,
}
use buff.Cli.Parse.Accepted.{IsCommand, IsComplete}
use buff.Cli.Parse.Accepted.Result.{parse_args_lem, parse-IsComplete}

abbrev refused : Error
refused = wrap (codes "create k") busy

is-across_example : is (across refused) busy ≡ is refused busy
is-across_example = is-across refused busy busy_shared

-- The server's EEXIST is a conflict by itself, and an internal error to the client.
abbrev taken : Error
taken = wrap (codes "mkdir") (fault 17)

taken_code : error_code taken ≡ 6
unfolding error_code is
taken_code = refl

taken_answered : error_code (across taken) ≡ 1
unfolding error_code is response_error map_err bytes_eq
taken_answered = refl

-- One hour, whatever is asked for.
abbrev an_hour : Bytes → Option ℕ
an_hour s = some 3600000000000

abbrev line : List Bytes
line = codes "--ttl=1h" ∷ codes "@work" ∷ codes "--" ∷ codes "-x" ∷ []

abbrev tokens : Tokens
tokens = record {
  slots = codes "work" ∷ [];
  paths = codes "-x" ∷ [];
  flags = record {
    copy = false;
    paste = false;
    list = false;
    delete = false;
    stat = false;
    version = false;
    help = false;
    output = [];
    output_set = false;
    wait = false;
    follow_next = false;
    ttl = 3600000000000;
    ttl_set = true;
    keep = false;
    consume = false;
    if_match = [];
    if_match_set = false;
    server = [];
    server_set = false;
  };
}

line_scans : scan an_hour line ≡ inl tokens
unfolding scan scan_from scan_one add_positional set_flag split_flag find_spec flag_specs set_ttl
    bytes_eq
line_scans = refl

abbrev upload : Invocation
upload = record {
  act = action_copy;
  slot = codes "work";
  paths = codes "-x" ∷ [];
  output = [];
  output_set = false;
  get = record { wait = false; follow_next = false };
  put = record { ttl = 3600000000000; keep = false; consume_once = false; if_match = [] };
  server = [];
  server_set = false;
}

line_parses : parse tokens true ≡ inl upload
unfolding parse parse_transfer parse_copy mode management_action
line_parses = refl

line_runs : parse_args an_hour line true ≡ inl upload
unfolding parse_args scan scan_from scan_one add_positional set_flag split_flag find_spec flag_specs
    set_ttl bytes_eq parse parse_transfer parse_copy mode management_action
line_runs = refl

parse_args_lem_example : IsCommand true upload
parse_args_lem_example = parse_args_lem an_hour line true upload line_runs

parse-IsComplete_example : (upload.act ≡ action_help) ⊎ IsComplete tokens upload
parse-IsComplete_example = parse-IsComplete an_hour line tokens true upload line_scans line_parses
