-- ===== src/Patterns/Tests.antt =====
-- Runs of the pattern functions.
use nx_mem_test.Base.{ℕ, ◌≡◌, inl, refl, arith}
use nx_mem_test.Types.{address, narrow}
use nx_mem_test.Patterns.{make_seed, mix64, expected_value}
use nx_mem_test.Patterns.Mix.{mix64_injective}
use nx_mem_test.Patterns.Distinct.{expected_value_distinct}

seed_12 : make_seed 0x12345678 0x9abcdef0 ≡ 0x123456789abcdef0
unfolding make_seed
seed_12 = refl

mix_zero : mix64 0 ≡ 0xe220a8397b1dcdaf
unfolding mix64
mix_zero = refl

narrow_start : expected_value 0 narrow 0 0 ≡ 0x0706050403020100
unfolding expected_value
narrow_start = refl

mix64_injective_example : ◌≡◌ {A = ℕ} 7 7
mix64_injective_example = mix64_injective 7 7 (omega arith) (omega arith) refl

expected_value_distinct_example : ◌≡◌ {A = ℕ} 8 8
expected_value_distinct_example =
    expected_value_distinct address 5 1 8 8 (inl refl) (omega arith) (omega arith) refl refl refl
