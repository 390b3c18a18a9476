-- ===== src/Start/Tests.antt =====
-- The theorems on `run` of cmd/minisshd/main.go in one world: a disk with a shell and no host key, one
-- accepted public key, and the methods password and publickey, with no password supplied. The identity
-- stands for SHA-256.
use minisshd.Prelude.{
  pos, ◌%◌, ◌+◌, ◌*◌, ◌≡◌, refl, ap, sym, true, false, none, some, [], ◌∷◌, arith, Bytes, codes,
  ◌=s=◌, length, ℕ, ◌<◌, ◌⊎◌, ◌≤◌, ◌↔◌,
}
use mathlib.Core.Option
use minisshd.Prelude.Maps.{lookup, insert}
use minisshd.HostKey.Load.{
  load_existing, load_or_generate, generate_and_write, check_parent, write_pub,
}
use minisshd.HostKey.Tests.{Disk, root, disk, keys, dir_root}
use minisshd.Auth.Resolve
use minisshd.Auth.Resolve.{
  directory, resolve_password_strict, resolve_username, resolve_authorized_keys_path,
}
use minisshd.Auth.Methods.{
  resolve_methods, resolve_raw, resolve_tokens, split, split_from, contains, join, to_string,
}
use minisshd.Auth.Credentials.{new_credentials, check}
use minisshd.Auth.Keyset
use minisshd.Auth.Keyset.Accepts.{mentions}
use minisshd.Auth.Keyset.{
  Source, Line, entry, scanned, count, bytes_less, is_skipped, load, parse, parse_lines, sort,
  sort_in,
}
use minisshd.Logging.Scrub.{scrubs_of, generate_password}
use minisshd.Logging.Line.{logfmt, emit_line}
use minisshd.Logging.Scrub.Absence.{occurs}
use minisshd.Logging.Events.{Call, event_of}
use minisshd.Start.Drawn.{run-drawn}
use minisshd.Start.Reloader
use minisshd.Start.Reloader.{
  Watch, waiting, moved, happened, written, take, reload, signal, none_yet, and_move, and_event,
}
use minisshd.Start.Reloader.Kept.{run-keeps}
use minisshd.Start.Reloader.Settled.{rank, signal-settles}
use minisshd.Start.Ran.{running, stopped, exit_bind_failure}
use minisshd.Start.Causes.{Cause}
use minisshd.Start.Exits.{run-caused}
use minisshd.Start.World.{Flags, World, getenv}
use minisshd.Start.Settings.{
  resolve_forward_max, parse_format, parse_format_string, validate_shell, ensure_minisshd_dir,
}
use minisshd.Start.Run.{
  Config, os_user, run, resolve_settings, pick_shell, run_settled, run_shelled, run_keyed,
  run_bound, bind_listener, configure, host_key_path, keys_path, load_host_key, load_keys,
  pick_password,
}
use minisshd.Start.Ready.{IsReady, run-IsReady}
use minisshd.Start.Offered.{IsOffered, run-IsOffered}
use minisshd.Start.Output.{IsOutput}
use minisshd.Start.Printed.{run-printed}
use minisshd.Server.Connection.{new_server_config}

abbrev hex_of : Bytes → Bytes
hex_of [] = []
hex_of (b ∷ bs) = (48 + b % 16) ∷ 48 ∷ hex_of bs

hex_of-length : (b : Bytes) → length (hex_of b) ≡ 2 * length b
hex_of-length [] = omega arith
hex_of-length (b ∷ bs) = omega (arith, hex_of-length bs)

abbrev drawn_bytes : Bytes
drawn_bytes = codes "0123456789abcdef0123456789abcdef"

drawn_bytes-length : (b : Bytes) → some drawn_bytes ≡ some b → length b ≡ 32
drawn_bytes-length b h = ap (λ o. length (Option.get_or o drawn_bytes)) (sym h)

abbrev flags : Flags
flags = record {
  port = pos 0;
  bind = codes "::";
  pass = [];
  pass_set = false;
  user = codes "al";
  shell = codes "/sh";
  host_key = codes "/k";
  host_key_set = true;
  log_format = [];
  log_format_set = false;
  auth = codes "password,publickey";
  auth_set = true;
  authorized_keys = codes "/keys";
  authorized_keys_set = true;
  forward_max = pos 4;
  forward_max_set = true;
}

abbrev line_of : Bytes → Line
line_of s = entry (record { key = s; comment = []; options = [] })

abbrev world : World Disk Bytes
world = record {
  flags = some flags;
  env = λ name. none;
  current_user = none;
  home = directory (codes "/home");
  pid = 7;
  parse_ip = λ t. some t;
  listen = λ ip port. some 2222;
  drawn = some 42;
  sentinel = some drawn_bytes;
  keys_file = λ path. scanned (codes "k" ∷ []);
  fs = disk;
  keys = keys;
  eval_symlinks = λ p s. some p;
  dir = dir_root;
  join = λ parts. codes "/joined";
  atoi = λ t. none;
  trim = λ t. t;
  hex = hex_of;
  sha256 = λ t. t;
  key_fingerprint = λ t. t;
  trim_line = λ t. t;
  parse_line = line_of;
  marshal_string = λ t. t;
}

abbrev start_disk : Disk
start_disk = (root, ([], 493)) ∷ (codes "/sh", ([], 493)) ∷ []

abbrev keyed_source : Source
keyed_source = record {
  path = codes "/keys";
  cur = some (
      record { marshal = codes "k"; digest = codes "k"; fingerprint = codes "k"; comment = [] }
      ∷ []);
}

abbrev served : Config Bytes
served = record {
  signer = codes "key";
  credentials = record { user_hash = codes "al"; password_hash = codes "000042" };
  shell = codes "/sh";
  scrubs = codes "000042" ∷ codes "0004" ∷ [];
  format = logfmt;
  methods = codes "password" ∷ codes "publickey" ∷ [];
  keyset_source = some keyed_source;
  forward_max = 4;
}

abbrev keyed_world : World Disk Bytes
keyed_world = record world { flags = some (record flags { auth = codes "publickey" }) }

abbrev keyed : Config Bytes
keyed = record served {
  credentials = record { user_hash = codes "al"; password_hash = hex_of drawn_bytes };
  scrubs = scrubs_of (hex_of drawn_bytes) (hex_of drawn_bytes);
  methods = codes "publickey" ∷ [];
}

-- The port is taken.
abbrev refused_world : World Disk Bytes
refused_world = record world { listen = λ ip port. none }

run-served :
    ((run world start_disk).outcome ≡ running served)
    × ((run keyed_world start_disk).outcome ≡ running keyed)
    × ((run refused_world start_disk).outcome ≡ stopped exit_bind_failure)
unfolding run resolve_settings resolve_forward_max resolve_password_strict resolve_methods
    resolve_raw ◌=s=◌ resolve_tokens split split_from contains resolve_username parse_format
    run_settled pick_shell validate_shell lookup insert new_credentials bytes_less count is_skipped
    load parse parse_lines sort sort_in join to_string resolve_authorized_keys_path check_parent
    generate_and_write load_existing load_or_generate write_pub generate_password scrubs_of
    bind_listener configure host_key_path keys_path load_host_key load_keys pick_password run_bound
    run_keyed run_shelled ensure_minisshd_dir parse_format_string
run-served = (refl, refl, refl)

run-caused_example : Cause refused_world start_disk exit_bind_failure
run-caused_example = run-caused refused_world start_disk exit_bind_failure run-served.2

run-IsReady_example : IsReady world served
run-IsReady_example =
    run-IsReady world hex_of-length drawn_bytes-length start_disk served run-served.0

run-IsOffered_example :
    IsOffered
      (λ s. s)
      (new_server_config served.methods tt (λ s. s) served.keyset_source served.signer)
run-IsOffered_example =
    run-IsOffered world tt (λ s. s) hex_of-length drawn_bytes-length start_disk served run-served.0

run-printed_example : IsOutput world start_disk (run world start_disk).out
run-printed_example = run-printed world start_disk

named_al :
    resolve_username flags.user (getenv world (codes "MINISSHD_USER")) (os_user world)
    ≡ Resolve.ok (codes "al")
unfolding resolve_username ◌=s=◌
named_al = refl

run-drawn_example :
    (n : ℕ) × (some 42 ≡ some n)
    × (((check (λ s. s) served.credentials (codes "al") (codes "000042")).0 ≡ (true, []))
        ↔ ((codes "al" ≡ codes "al") × (codes "000042" ≡ generate_password n)))
    × ((call : Call) (now : Bytes)
        → (let e = event_of (λ n. []) (λ n. []) call in
            occurs
              (generate_password n)
              (emit_line (λ s. s) (λ n. []) logfmt served.scrubs now e.level e.name e.fields)
            ≡ false))
unfolding contains ◌=s=◌
run-drawn_example =
    run-drawn world (λ s. s) (λ n. []) (λ n. []) flags refl (refl, refl) (codes "al") named_al
      start_disk served run-served.0 refl (codes "al") (codes "000042") (λ e. e) (λ n d e. e)

-- The file is emptied after the start, and a SIGHUP comes.

abbrev emptied : Watch
emptied = record {
  file = scanned [];
  source = (Keyset.reload (λ s. s) (λ s. s) (λ s. s) line_of (scanned []) keyed_source).0;
  stage = waiting;
  pending = false;
  cancelled = false;
}

run-keeps_example : 1 ≤ count emptied.source.cur
unfolding contains ◌=s=◌
run-keeps_example =
    run-keeps keyed_world hex_of-length drawn_bytes-length start_disk keyed run-served.1 refl
      keyed_source refl (scanned (codes "k" ∷ [])) emptied
      (moved (moved (happened (written (scanned []) Reloader.start) signal) (take refl refl))
        (reload refl))

-- A signal after a write, and another one while the reload runs.
abbrev written_watch : Watch
written_watch = record {
  file = scanned (codes "k" ∷ []);
  source = record { path = codes "/keys"; cur = none };
  stage = waiting;
  pending = true;
  cancelled = false;
}

abbrev caught_up : Source
caught_up =
    (Keyset.reload (λ s. s) (λ s. s) (λ s. s) line_of written_watch.file
      (Keyset.reload (λ s. s) (λ s. s) (λ s. s) line_of written_watch.file
        written_watch.source).0).0

one-line :
    1 ≤ length (parse_lines (λ s. s) (λ s. s) (λ s. s) line_of (codes "/keys") 1 (codes "k" ∷ [])).0
unfolding parse_lines is_skipped
one-line = omega arith

signal-settles_example :
    ((Keyset.check (λ s. s) (λ s. s) (λ s. s) line_of caught_up.cur (codes "k")).0.0
      ≡ mentions (λ s. s) (λ s. s) (λ s. s) line_of (codes "k") (codes "k" ∷ []))
    × ((u : Watch)
        → (u.stage ≡ Reloader.stopped)
          ⊎ ((u.stage ≡ waiting) × (u.pending ≡ false))
          ⊎ ((v : Watch) × Reloader.Move (λ s. s) (λ s. s) (λ s. s) line_of u v))
    × ((u v : Watch) → Reloader.Move (λ s. s) (λ s. s) (λ s. s) line_of u v → rank v < rank u)
signal-settles_example =
    signal-settles (λ s. s) (λ s. s) (λ s. s) line_of written_watch
      (record written_watch { source = caught_up; pending = false }) (codes "k" ∷ []) (codes "k")
      (λ k e. e) refl refl one-line
      (and_move
        (and_move (and_move (and_event (and_move none_yet (take refl refl)) signal) (reload refl))
          (take refl refl))
        (reload refl))
      refl refl
