-- ===== src/Dispatch/Output.antt =====
-- The bounded buffers that hold the output of a plugin process: internal/dispatch/output_limit.go. A
-- byte is a number.
pub mod Prefix
use ductile.Common.{
  ℕ, zero, suc, ◌-◌, Bool, true, false, List, [], ◌∷◌, ◌++◌, leb, ◌==◌, if◌then◌else◌, length,
}
use ductile.Common.Int.{ℤ, pos_part, is_pos}

-- `boundedBuffer`
pub record BoundedBuffer : Type 0 where
  pub buf : List ℕ
  pub limit : ℤ
  pub truncated : Bool

-- `newBoundedBuffer`
abbrev pub new_bounded_buffer : ℤ → BoundedBuffer
new_bounded_buffer limit = record { buf = []; limit = limit; truncated = false }

-- `p[:n]`
abbrev pub take : ℕ → List ℕ → List ℕ
take zero p = []
take (suc n) [] = []
take (suc n) (b ∷ p) = b ∷ take n p

-- `Write` with `remaining` bytes left.
abbrev write_within : ℕ → List ℕ → BoundedBuffer → BoundedBuffer
write_within remaining p b =
    if remaining == 0
    then record b { truncated = true }
    else if leb (length p) remaining
    then record b { buf = b.buf ++ p }
    else record b { buf = b.buf ++ take remaining p; truncated = true }

-- `Write`, which reports every byte as written.
write : List ℕ → BoundedBuffer → BoundedBuffer
write p b = if is_pos b.limit then write_within (pos_part b.limit - length b.buf) p b else b
