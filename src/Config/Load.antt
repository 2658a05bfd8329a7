-- ===== src/Config/Load.antt =====
-- `Load` of internal/config/config.go.
use nat_pmp.Common.{String}
use nat_pmp.Common.{wrap, Result, ok, ◌>>=◌, ◌>>◌}
use nat_pmp.Config.Requests.{Config, Host}
use nat_pmp.Config.Validate.{validate}

-- `os.Stat`, of which only the error is used, and `xconfig.Load` of a file and the environment.
pub record Files : Type 0 where
  pub stat : String → Result (Unit {0})
  pub read_config : String → Result Config

module _ (files : Files) (host : Host) where
  unfoldable pub load : String → Result Config
  load filename = do
    wrap "load config" (files.stat filename)
    cfg ← wrap "load config" (files.read_config filename)
    validate host cfg
    ok cfg
