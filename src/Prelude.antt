-- ===== src/Prelude.antt =====
-- Names shared by the modules of this library: the libraries' own, passed on, and those of the
-- children. No code of the repository is modelled here.
mod Tests
mod Results
pub mod Programs
mod Tables
mod Keys
mod Text
mod Ascii
unfoldable pub use Tests.*
pub use Results.*
unfoldable pub use Tables.*
pub use Keys.*
unfoldable pub use Text.*
unfoldable pub use Ascii.*
pub use Prim.Native.Nat.{ℕ, zero, suc, ◌+◌, ◌-◌, ◌*◌, ◌/◌, ◌%◌, ◌^◌, ◌≤◌, ◌<◌, max}
pub use Prim.Native.String.{String}
pub use mathlib.Core.Path.{◌≡◌, refl, sym, ap, subst, fun_ext, ◌∙◌}
pub use mathlib.Core.Logic.{◌≢◌, ◌↔◌, ◌⊎◌, inl, inr}
pub use mathlib.Core.Bool.{Bool, true, false, not, ◌&&◌, ◌||◌}
pub use mathlib.Core.Option.{Option, none, some}
pub use mathlib.Core.List.{List, [], ◌∷◌, ◌++◌}
pub use native.Mathlib.Omega.{arith}
pub use text.Mathlib.TextEquality.{eq_iff}
