-- ===== src/Rempi/Compression.antt =====
-- The compression helpers of src/rempi/rempi_compression_util.cpp. A value of the template type T is
-- its bit pattern, and `m` is the number of patterns: 2 ^ 32 for int, 2 ^ 64 for size_t.
pub mod Prediction
use re_omp_llvm.Common.{
  ℕ, zero, suc, ◌+◌, ◌-◌, ◌*◌, ◌/◌, ◌%◌, ◌^◌, Bool, ◌&&◌, not, Option, none, some, List, [], ◌∷◌,
  ◌++◌, ltb, ◌==◌, if◌then◌else◌, length, set, get_elem?, replicate,
}

-- The loops carry t1 and t2, the values one and two places before.
unfoldable pub predict_loop : (m t1 t2 : ℕ) → List ℕ → List ℕ
predict_loop m t1 t2 [] = []
predict_loop m t1 t2 (t0 ∷ vec) = (t0 + 2 * m - 2 * t1 + t2) % m ∷ predict_loop m t0 t1 vec

unfoldable pub compress_by_linear_prediction : ℕ → List ℕ → List ℕ
unfolding predict_loop
compress_by_linear_prediction m vec = predict_loop m 0 0 vec

unfoldable pub restore_loop : (m t1 t2 : ℕ) → List ℕ → List ℕ
restore_loop m t1 t2 [] = []
restore_loop m t1 t2 (t0 ∷ vec) =
    let v : ℕ = (t0 + 2 * t1 + m - t2) % m in v ∷ restore_loop m v t1 vec

unfoldable pub decompress_by_linear_prediction : ℕ → List ℕ → List ℕ
unfolding restore_loop
decompress_by_linear_prediction m vec = restore_loop m 0 0 vec

-- A byte shifted left by one, and with its lowest bit set.
abbrev pub shl1 : ℕ → ℕ
shl1 b = b * 2 % 256

abbrev pub set_low : ℕ → ℕ
set_low b = b - b % 2 + 1

abbrev pub byte_at : List ℕ → ℕ → ℕ
byte_at [] i = 0
byte_at (b ∷ bs) zero = b
byte_at (b ∷ bs) (suc i) = byte_at bs i

module _ {ℓ} {T : Type ℓ} (is_positive : T → Bool) where
  -- the loop of compress_by_zero_one_binary: `is_positive` is the test `vec[i] > 0` at T
  unfoldable pub pack_loop : (i bin_index : ℕ) → List ℕ → List T → List ℕ
  pack_loop i bin_index binary [] = binary
  pack_loop i bin_index binary (v ∷ vec) =
      let shifted : List ℕ = set binary bin_index (shl1 (byte_at binary bin_index)) in
      let marked : List ℕ =
        if is_positive v
        then set shifted bin_index (set_low (byte_at shifted bin_index))
        else shifted in
      pack_loop (i + 1) (if (i % 8 == 7) && not (i == 0) then bin_index + 1 else bin_index) marked
        vec

  unfoldable pub required_size : List T → ℕ
  required_size vec = length vec / 8 + (if not (length vec % 8 == 0) then 1 else 0)

  -- `none` is the NULL that an empty vector gives.
  unfoldable pub compress_by_zero_one_binary : List T → Option (List ℕ)
  unfolding pack_loop required_size
  compress_by_zero_one_binary vec =
      if length vec == 0 then none else some (pack_loop 0 0 (replicate (required_size vec) 0) vec)

-- The inner loop of decompress_by_zero_one_binary: `j` rounds are left. The result is what is pushed,
-- and the count that is left, `none` if the function has returned. `b & offset` is not 0 where
-- `b / offset` is odd, since the offset is a power of two or 0, and `/ 0` is 0.
unfoldable pub unpack_byte : (j b offset count : ℕ) → List ℕ × Option ℕ
unpack_byte zero b offset count = ([], some count)
unpack_byte (suc j) b offset count =
    let bit : ℕ = if b / offset % 2 == 0 then 0 else 1 in
    let left : ℕ = (count + 2 ^ 64 - 1) % 2 ^ 64 in
    let (bits, rest) = unpack_byte j b (offset / 2) left in
    if left == 0 then (bit ∷ [], none) else (bit ∷ bits, rest)

abbrev pub first_offset : ℕ → ℕ
first_offset count = if ltb count 8 then 128 / 2 ^ (8 - count) else 128

-- decompress_by_zero_one_binary into an empty vector; `none` if it reads past the buffer
unfoldable pub unpack_loop : List ℕ → ℕ → Option (List ℕ)
unfolding unpack_byte
unpack_loop [] count = none
unpack_loop (b ∷ bin) count =
    let (bits, rest) = unpack_byte 8 b (first_offset count) count in
    elim rest [
      | none ↦ some bits
      | some left ↦ elim (unpack_loop bin left) [ none ↦ none | some more ↦ some (bits ++ more) ]
    ]

unfoldable pub decompress_by_zero_one_binary : List ℕ → ℕ → Option (List ℕ)
unfolding unpack_loop
decompress_by_zero_one_binary bin len = unpack_loop bin len
