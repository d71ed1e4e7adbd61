-- ===== src/UnitTests.antt =====
-- src/unitTests/StartAllTests.cpp and src/unitTests/util/Array_tests.cpp. GoogleTest is a parameter:
-- what InitGoogleTest leaves of the arguments, and what RUN_ALL_TESTS returns for the tests that
-- are registered, of which each has passed or not.
use Prim.Native.String.{String}
use af_analyzer.Prelude.{ℕ, ◌≡◌, refl, Bool, true, not, List, [], ◌∷◌, all, ◌==◌}

-- The test Memory_allocated of Array: `EXPECT_NE(0, mem_array)`, where `mem_array` is 1.
unfoldable pub memory_allocated : Bool
memory_allocated = let mem_array : ℕ = 1 in not (0 == mem_array)

module _ (init_google_test : List String → List String)
    (run_all_tests : List String → List Bool → ℕ) where
  -- `main`.
  unfoldable pub start_all_tests : List String → ℕ
  start_all_tests argv = run_all_tests (init_google_test argv) (memory_allocated ∷ [])

  -- RUN_ALL_TESTS returns 0 if all tests pass, and so does `main`.
  start_all_tests-passes :
      ((args : List String) (tests : List Bool)
        → all (λ t. t) tests ≡ true
        → run_all_tests args tests ≡ 0)
      → (argv : List String) → start_all_tests argv ≡ 0
  unfolding start_all_tests memory_allocated
  start_all_tests-passes documented argv = documented (init_google_test argv) _ refl
