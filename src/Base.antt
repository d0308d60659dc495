-- ===== src/Base.antt =====
-- Names that the modules share: those of the libraries, passed on, and those of four children.
mod Tests
mod Lists
mod Results
mod Maps
mod Slices
mod Xor
pub use Tests.*
pub use Lists.*
pub use Slices.*
pub use Xor.*
pub use Results.{
  Error, length_error, invalid_argument, runtime_error, fault, Result, ok, err, Method, >>=-eq-ok,
}
pub use Maps.{Distinct, lookup-erase, lookup-erase_other, lookup-put, lookup-put_other}
unfoldable pub use Maps.{lookup, erase, put}
unfoldable pub use Results.{◌>>=◌, ◌>>◌, pure, throw, lift}
pub use Prim.Native.Nat.{ℕ, zero, suc, ◌+◌, ◌-◌, ◌*◌, ◌/◌, ◌%◌, ◌^◌, ◌≤◌, ◌<◌, min, bit_xor}
pub use mathlib.Core.Path.{◌≡◌, refl, sym, ap, ◌∙◌}
pub use mathlib.Core.Logic.{◌≢◌, ◌↔◌, ◌⊎◌, inl, inr}
pub use mathlib.Core.Bool.{Bool, true, false, not, ◌&&◌, ◌||◌}
pub use mathlib.Core.Option.{Option, none, some}
pub use mathlib.Core.List.{List, [], ◌∷◌, ◌++◌, map}
pub use native.Mathlib.Omega.{arith}
