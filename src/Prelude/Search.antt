-- ===== src/Prelude/Search.antt =====
-- `contains` of Rust's `str`.
use Prim.Native.String.{String}
use Prim.Native.String.{[] as empty, ◌∷◌ as cons}
use mathlib.Core.Bool.{Bool, ◌||◌}
use text.Mathlib.Text.{starts_with}

unfoldable pub contains : String → String → Bool
contains empty part = starts_with empty part
contains (cons c s) part = starts_with (cons c s) part || contains s part
