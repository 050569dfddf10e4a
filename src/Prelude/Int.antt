-- ===== src/Prelude/Int.antt =====
-- C++ `int` fields that hold -1 as a mark. `negsuc n` is -(n + 1). No value is bounded here: the
-- program's positions are below 2^31 for every source shorter than 2 GB.
use element.Prelude.{ℕ, suc, ◌+◌, ◌-◌, Bool, true, false, leb, if◌then◌else◌}

pub data ℤ : Type 0 where
  pos : ℕ → ℤ
  negsuc : ℕ → ℤ

-- z + n, for a length n that is added to a field.
abbrev pub add_ℕ : ℤ → ℕ → ℤ
add_ℕ (pos z) n = pos (z + n)
add_ℕ (negsuc z) n = if leb (suc z) n then pos (n - suc z) else negsuc (z - n)

-- z < 0
abbrev pub is_negative : ℤ → Bool
is_negative (pos _) = false
is_negative (negsuc _) = true

-- z as the `size_t` argument of `substr`, where it is not negative.
abbrev pub to_ℕ : ℤ → ℕ
to_ℕ (pos z) = z
to_ℕ (negsuc z) = 0
