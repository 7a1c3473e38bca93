-- ===== src/Conf/Keys.antt =====
-- The walk over the variables' names, of ga/core/ga-conf.cpp: `ga_vmi` is the name that the iterator
-- stands at, or none at the end.
pub mod Walk
use gaminganywhere.Base.{List, [], ◌∷◌, Option, none, some}
use gaminganywhere.Conf.Maps.{Bytes, begin, next}
use gaminganywhere.Conf.Store.{Vars}

unfoldable pub ga_conf_clear : Vars × Option Bytes
ga_conf_clear = ([], none)

unfoldable pub ga_conf_reset : Vars → Option Bytes
ga_conf_reset vars = begin vars

-- NULL is none.
unfoldable pub ga_conf_key : Option Bytes → Option Bytes
ga_conf_key vmi = vmi

-- The name, and the iterator moved.
unfoldable pub ga_conf_nextkey : Vars → Option Bytes → Option Bytes × Option Bytes
ga_conf_nextkey vars none = (none, none)
ga_conf_nextkey vars (some k) = let moved = next vars k in (moved, moved)
