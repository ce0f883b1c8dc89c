-- ===== src/Index.antt =====
-- Indices (src/index.rs, `define_index!`). The macro declares a newtype over u32 for each of
-- `Inst`, `Block` and the indices of src/ion/mod.rs; here each is a number below 2 ^ 32. The u32
-- arithmetic is that of a release build, which wraps.
pub mod InstRange
pub mod Iteration
use regalloc2_orig.Prelude.{
  ℕ, ◌+◌, ◌-◌, ◌%◌, ◌^◌, Option, some, ◌>>=◌, ◌>>◌, Bool, not, ◌==◌, assert, u32,
}

abbrev pub Inst : Type 0
Inst = ℕ

abbrev pub Block : Type 0
Block = ℕ

abbrev pub new : ℕ → ℕ
new i = u32 i

abbrev pub invalid : ℕ
invalid = 2 ^ 32 - 1

abbrev pub is_invalid : ℕ → Bool
is_invalid i = i == invalid

abbrev pub is_valid : ℕ → Bool
is_valid i = not (i == invalid)

abbrev pub index : ℕ → Option ℕ
index i = do assert (is_valid i); some i

abbrev pub next : ℕ → Option ℕ
next i = do assert (is_valid i); some (u32 (i + 1))

abbrev pub prev : ℕ → Option ℕ
prev i = do assert (is_valid i); some (u32 (i + 2 ^ 32 - 1))
