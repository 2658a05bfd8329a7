-- ===== src/Cli.antt =====
-- internal/cli/cli.go and main.go: the command line. The library that parses it is a parameter.
pub mod Exit
pub mod Tests
use nat_pmp.Common.{ℕ, String, List, [], ◌∷◌, Error, ok, err}
use nat_pmp.Config.Level.{Level, parse_level}
use nat_pmp.Config.Load.{Files, load}
use nat_pmp.Daemon.Wiring.{World, System, run_new}

-- The version that main.go has if the linker sets none.
abbrev pub version : String
version = "dev"

-- The settings of `newRootCommand`: the `--config` flag, its shorthand and its default are the last
-- three.
pub record Command : Type 0 where
  pub use_line : String
  pub short : String
  pub version : String
  pub flag : String
  pub shorthand : String
  pub default_path : String

unfoldable pub new_root_command : String → Command
new_root_command version = record {
  use_line = "nat-pmp";
  short = "Maintain router port forwardings via UPnP, NAT-PMP, or PCP";
  version = version;
  flag = "config";
  shorthand = "c";
  default_path = "config.yaml";
}

-- What cobra makes of the arguments: an error, the help or the version printed, or `RunE` called with
-- the path that the flag has.
pub data Parsed : Type 0 where
  refused : Error → Parsed
  printed : Parsed
  selected : String → Parsed

-- The level that the logger is given.
abbrev pub new_logger : String → Level
new_logger = parse_level

-- `err == nil` of the errors joined: 0, or else 1.
abbrev pub exit_code : List Error → ℕ
exit_code [] = 0
exit_code (e ∷ errs) = 1

module _ {O U : Type 0} (sys : System O U) (files : World O → Files) where
  -- `run`, the timer firing `rounds` times before a signal comes.
  unfoldable pub run : ℕ → String → World O → List Error × World O
  run rounds config_path w = elim (load (files w) (sys.interfaces w) config_path) [
    | err e ↦ (e ∷ [], w)
    | ok cfg ↦ run_new sys cfg rounds w
  ]

  module _ (parse : Command → List String → Parsed) where
    -- `cmd.ExecuteContext`
    unfoldable pub execute_context : ℕ → Command → List String → World O → List Error × World O
    execute_context rounds cmd args w = elim (parse cmd args) [
      | refused e ↦ (e ∷ [], w)
      | printed ↦ ([], w)
      | selected config_path ↦ run rounds config_path w
    ]

    unfoldable pub execute_command : ℕ → Command → List String → World O → ℕ × World O
    execute_command rounds cmd args w =
        let (errs, w') = execute_context rounds cmd args w in (exit_code errs, w')

    -- `Execute`; `main` exits with its code.
    unfoldable pub execute : ℕ → String → List String → World O → ℕ × World O
    execute rounds version = execute_command rounds (new_root_command version)
