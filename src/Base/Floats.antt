-- ===== src/Base/Floats.antt =====
-- The floating-point arithmetic of the platform, which the code uses and does not define: a
-- parameter of the definitions that compute with f32 and f64.
use Prim.Native.Nat.{ℕ}
use mathlib.Core.Bool.{Bool, true, false}

-- The operations of one floating-point type. `ratio n d` is the literal for n / d; `to_nat` is the
-- saturating cast to an unsigned integer.
pub record Arith (F : Type 0) : Type 0 where
  pub of_nat : ℕ → F
  pub ratio : ℕ → ℕ → F
  pub add : F → F → F
  pub sub : F → F → F
  pub mul : F → F → F
  pub div : F → F → F
  pub larger : F → F → F
  pub lt : F → F → Bool
  pub le : F → F → Bool
  pub is_finite : F → Bool
  pub ceil : F → F
  pub round : F → F
  pub to_nat : F → ℕ

pub record Floats : Type 1 where
  pub F32 : Type 0
  pub F64 : Type 0
  pub single : Arith F32
  pub double : Arith F64
  -- `as f32`
  pub narrow : F64 → F32

-- `x.clamp(lo, hi)`
abbrev pub clamp : {F : Type 0} → Arith F → F → F → F → F
clamp a x lo hi = elim (a.lt x lo) [
  | true ↦ lo
  | false ↦ (elim (a.lt hi x) [ true ↦ hi | false ↦ x ])
]
