-- ===== src/Ring.antt =====
-- Indices that go round at the capacity of a channel or a hash table (src/lib/channel.h and
-- src/lib/map.h).
use lemon.Base.{ℕ, suc, ◌+◌, ◌-◌, ◌%◌, ◌≤◌, ◌<◌, ◌≡◌, ◌≢◌, ◌⊎◌, inl, inr, ap, ◌∙◌, dec_lt, arith}
use native.Mathlib.Nat.{mod-eq_of_lt, mod-eq-sub-mod, mod-add-mod}

-- An index is below the capacity as it is, or after one round.
pub mod-wrap :
    (c a b : ℕ) → a < c → b < c → ((a + b) % c ≡ a + b) ⊎ ((c ≤ a + b) × ((a + b) % c + c ≡ a + b))
mod-wrap c a b ha hb = elim (dec_lt (a + b) c) [
  | yes p ↦ inl (mod-eq_of_lt p)
  | no p ↦ inr (
    omega arith,
    omega (
      arith,
      mod-eq-sub-mod {n = a + b} {m = c} (omega arith),
      mod-eq_of_lt {n = a + b - c} {m = c} (omega arith),
    ),
  )
]

-- Two places less than one round apart from `h` are different.
pub ring-ne : (c h i j : ℕ) → h < c → i < j → j < c → (h + i) % c ≢ (h + j) % c
ring-ne c h i j hh ij jc = omega (arith, mod-wrap c h i hh (omega arith), mod-wrap c h j hh jc)

pub ring-step : (c h i : ℕ) → ((h + 1) % c + i) % c ≡ (h + suc i) % c
ring-step c h i =
    let e : h + 1 + i ≡ h + suc i = omega arith in mod-add-mod (h + 1) c i ∙ ap (λ k. k % c) e
