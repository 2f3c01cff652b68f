-- ===== src/Runner/Write/Chunk.antt =====
-- Writing a chunk, whatever the phase.
use nx_mem_test.Base.{ℕ, ◌+◌, ◌*◌, ◌/◌, ◌^◌, ◌≤◌, ◌<◌, ◌≡◌, refl, sym, ap, ◌∙◌, Bool}
use nx_mem_test.Base.{arith, mul64, loop_by}
use nx_mem_test.Types.{Phase, fixed_a, fixed_5, checker, address, random, walking, narrow}
use nx_mem_test.Types.{bitspread, stream, word_bytes}
use nx_mem_test.Patterns.{expected_value}
use nx_mem_test.Runner.Expected.{expected_from}
use nx_mem_test.Runner.Memory.{Mem, store, fill, fill-zero, store_loop}
use nx_mem_test.Runner.Write.{memset, write_chunk}
use nx_mem_test.Runner.Write.Alternating.{write_checker-fill, write_bitspread-fill}
use nx_mem_test.Runner.Write.Eight.{write_address-fill, write_random-fill, write_walking-fill}
use nx_mem_test.Runner.Write.Narrow.{write_narrow-fill}
use nx_mem_test.Runner.Write.Stream.{write_stream-fill}

memset-fill :
    (p n byte : ℕ) (f : ℕ → ℕ) (m : Mem)
    → n * word_bytes < 2 ^ 64
    → ((k : ℕ) → k < n → byte * 0x0101010101010101 ≡ f k)
    → memset m p byte (mul64 n word_bytes) ≡ fill p n f m
unfolding memset
memset-fill p n byte f m small e =
    let words : mul64 n word_bytes / word_bytes ≡ n = omega arith in
    rw words (
      ap (loop_by 1 n 0 (λ k m'. store m' (p + k) (byte * 0x0101010101010101)))
        (sym (fill-zero p f m))
      ∙ store_loop p n 0 (λ _. byte * 0x0101010101010101) f m (omega arith) e)

-- Writing a chunk that lies in the 64-bit address space, whichever way it is compiled, leaves the
-- words that the phase expects there in the chunk, and all other words as they were.
pub write_chunk_lem :
    (neon : Bool) (p n start : ℕ) (phase : Phase) (seed pass : ℕ) (m : Mem)
    → seed < 2 ^ 64
    → n * word_bytes < 2 ^ 64
    → (start + n) * word_bytes ≤ 2 ^ 64
    → write_chunk neon p n start phase seed pass m
      ≡ fill p n (expected_from seed phase pass start) m
unfolding write_chunk expected_value
write_chunk_lem neon p n start fixed_a seed pass m hs hn fits =
    memset-fill p n 0xaa _ m hn (λ k lt. refl)
write_chunk_lem neon p n start fixed_5 seed pass m hs hn fits =
    memset-fill p n 0x55 _ m hn (λ k lt. refl)
write_chunk_lem neon p n start checker seed pass m hs hn fits =
    write_checker-fill neon p n start seed pass m
write_chunk_lem neon p n start address seed pass m hs hn fits =
    write_address-fill neon p n start seed pass m fits
write_chunk_lem neon p n start random seed pass m hs hn fits =
    write_random-fill neon p n start seed pass m fits
write_chunk_lem neon p n start walking seed pass m hs hn fits =
    write_walking-fill neon p n start seed pass m fits
write_chunk_lem neon p n start narrow seed pass m hs hn fits =
    write_narrow-fill p n start seed pass m hs hn fits
write_chunk_lem neon p n start bitspread seed pass m hs hn fits =
    write_bitspread-fill neon p n start seed pass m
write_chunk_lem neon p n start stream seed pass m hs hn fits =
    write_stream-fill neon p n start seed pass m fits
