-- ===== src/Hello/Tests.antt =====
-- The first rounds of hello_main.c.
use railab_nuttx_code.Prelude.{
  ◌≡◌, ◌^◌, refl, [], ◌∷◌, length, get_elem?, some, done, fault, ltb, if◌then◌else◌, arith,
}
use railab_nuttx_code.Hello.{hello_loop, hello_main, hello_counts}

three_lines : (hello_main 3).printed ≡ 0 ∷ 1 ∷ 2 ∷ []
unfolding hello_main
three_lines = refl

-- The last round that the counter has room for.
overflows : (hello_loop 2 2147483646).counter ≡ fault
unfolding hello_loop
overflows = refl

hello_counts_example :
    (get_elem? (hello_main 3).printed 2 ≡ some 2)
    × (length (hello_main 3).printed ≡ (if ltb 3 (2 ^ 31) then 3 else 2 ^ 31))
    × ((hello_main 3).counter ≡ (if ltb 3 (2 ^ 31) then done 3 else fault))
hello_counts_example = hello_counts 3 2 (omega arith) (omega arith)
