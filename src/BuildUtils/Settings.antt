-- ===== src/BuildUtils/Settings.antt =====
-- The module-level settings of python/build_utils.py, read from the environment.
use gr_digitizers.Prelude.{
  Bool, true, false, Option, none, some, [], ◌++◌, if◌then◌else◌, ◌≡◌, refl,
}
use gr_digitizers.Prelude.Str.{Str, codes, str_eq}
use gr_digitizers.Prelude.Dict.{Dict, lookup}

pub record Settings : Type 0 where
  pub srcdir : Str
  pub do_makefile : Bool
  pub do_sources : Bool

-- `os.environ[key]` with what its `KeyError` handler assigns.
abbrev srcdir_of : Option Str → Str
srcdir_of (some dir) = dir ++ codes "/"
srcdir_of none = codes "." ++ codes "/"

abbrev makefile_of : Option Str → Bool
makefile_of (some v) = if str_eq v (codes "0") then false else true
makefile_of none = false

abbrev sources_of : Option Str → Bool
sources_of (some v) = if str_eq v (codes "0") then false else true
sources_of none = true

unfoldable pub settings : Dict Str → Settings
unfolding lookup str_eq
settings environ = record {
  srcdir = srcdir_of (lookup (codes "srcdir") environ);
  do_makefile = makefile_of (lookup (codes "do_makefile") environ);
  do_sources = sources_of (lookup (codes "do_sources") environ);
}

-- Without any variable set, the sources are written and the makefile fragment is not.
settings_default :
    settings [] ≡ record { srcdir = codes "./"; do_makefile = false; do_sources = true }
unfolding settings
settings_default = refl
