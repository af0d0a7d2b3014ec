-- ===== src/Base.antt =====
-- The names that every other module shares: those of the libraries, passed on, and the tests,
-- lists and byte strings of the children. It models no code of its own.
mod Tests
mod Lists
mod Bytes
unfoldable pub use Bytes.{bytes_eq}
pub use Bytes.*
pub use Tests.*
pub use Lists.*
pub use Prim.Native.Nat.{ℕ, zero, suc, ◌+◌, ◌-◌, ◌*◌, ◌/◌, ◌%◌, ◌^◌, ◌≤◌, ◌<◌, bit_xor}
pub use mathlib.Core.Path.{◌≡◌, refl, sym, ap, ap₂, ◌∙◌, subst, ◌≡⟨◌⟩◌, ◌∎}
pub use mathlib.Core.Logic.{◌≢◌, ◌↔◌, ◌⊎◌, inl, inr}
pub use mathlib.Core.Bool.{Bool, true, false, not, ◌&&◌, ◌||◌}
pub use mathlib.Core.Option.{Option, none, some}
pub use mathlib.Core.List.{List, [], ◌∷◌, ◌++◌, append_assoc, append-nil}
pub use native.Mathlib.Omega.{arith}
unfoldable pub use native.Mathlib.Decide.{dec_lt, ℕ_discrete}

-- `size_t` and `uint64_t` have 64 bits.
abbrev pub word_mod : ℕ
word_mod = 2 ^ 64

-- `SIZE_MAX` and `UINT64_MAX`
abbrev pub size_max : ℕ
size_max = 2 ^ 64 - 1
