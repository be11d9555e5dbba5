-- ===== src/Base/Objects.antt =====
-- Pointers. One that is only stored and compared is a number, or `none` where it is NULL; one
-- through which a function reads and writes is the object itself, or `none`.
use Prim.Native.Nat.{ℕ}
use mathlib.Core.Option.{Option, none, some}

abbrev pub Pointer : Type 0
Pointer = Option ℕ

-- A call through a pointer: at NULL it returns `refused` and writes nothing.
abbrev pub through {ℓ κ} : {S : Type ℓ} {A : Type κ} → Option S → A → (S → A × S) → A × Option S
through none refused f = (refused, none)
through (some s) refused f = let (a, s') = f s in (a, some s')
