-- ===== src/Runner.antt =====
-- The test runner of wasabi/src/test_runner.rs and the exit of wasabi/src/qemu.rs. A test is its name and
-- whether its function returns; a panic ends the run in the panic handler.
use osdev_hikalium.Prelude.{
  ℕ, ◌+◌, ◌%◌, ◌^◌, ◌≡◌, refl, ap, sym, append-nil, ◌∙◌, Bool, true, false, if◌then◌else◌, List, [],
  ◌∷◌, ◌++◌, append_assoc, length, All, Bool-cases, inl, inr,
}
pub mod Suite
mod Tests

pub data QemuExitCode : Type 0 where
  success fail : QemuExitCode

abbrev pub exit_value : QemuExitCode → ℕ
exit_value success = 0x1
exit_value fail = 0x2

-- The write of `exit_qemu`, with which the program ends: the port and the byte.
abbrev pub exit_qemu : QemuExitCode → ℕ × ℕ
exit_qemu code = (0x4, exit_value code % 2 ^ 8)

pub record Testable : Type 0 where
  pub name : ℕ
  pub returns : Bool

-- The lines on the serial port.
pub data Line : Type 0 where
  running_tests completed_tests : ℕ → Line
  running passed : ℕ → Line
  panic_during_test : Line

-- What a run prints, and the write that ends it.
pub record Report : Type 0 where
  pub lines : List Line
  pub exit : ℕ × ℕ

-- The panic handler, after what is printed so far.
abbrev pub panic_handler : List Line → Report
panic_handler out = record { lines = out ++ (panic_during_test ∷ []); exit = exit_qemu fail }

-- The loop of `test_runner` with `Testable::run`, and what follows it; n is the number of all tests.
unfoldable pub run_tests : ℕ → List Line → List Testable → Report
run_tests n out [] = record { lines = out ++ (completed_tests n ∷ []); exit = exit_qemu success }
run_tests n out (test ∷ tests) =
    let rest = run_tests n (out ++ (running test.name ∷ []) ++ (passed test.name ∷ [])) tests in
    if test.returns then rest else panic_handler (out ++ (running test.name ∷ []))

unfoldable pub test_runner : List Testable → Report
test_runner tests = run_tests (length tests) (running_tests (length tests) ∷ []) tests

-- The lines of tests that return.
abbrev pub passes : List Testable → List Line
passes [] = []
passes (test ∷ tests) = running test.name ∷ passed test.name ∷ passes tests

abbrev pub Returns : Testable → Type 0
Returns test = test.returns ≡ true

run_tests-passes :
    (before after : List Testable) (n : ℕ) (out : List Line)
    → All Returns before
    → run_tests n out (before ++ after) ≡ run_tests n (out ++ passes before) after
unfolding run_tests
run_tests-passes [] after n out all = ap (λ o. run_tests n o after) (sym (append-nil out))
run_tests-passes (test ∷ before) after n out all = rw all.0 (
    run_tests-passes before after n (out ++ (running test.name ∷ []) ++ (passed test.name ∷ []))
      all.1
    ∙ ap (λ o. run_tests n o after) (simp append_assoc refl))

-- What a run reports: that all tests returned, or the first that did not.
pub record Reports (tests : List Testable) : Type 0 where
  pub all_pass :
      All Returns tests
      → test_runner tests ≡ record {
        lines =
            (running_tests (length tests) ∷ passes tests) ++ (completed_tests (length tests) ∷ []);
        exit = (4, 1);
      }
  pub first_failure :
      (before after : List Testable) (test : Testable)
      → tests ≡ before ++ (test ∷ after)
      → All Returns before
      → test.returns ≡ false
      → test_runner tests ≡ record {
        lines =
            (running_tests (length tests) ∷ passes before)
            ++ (running test.name ∷ panic_during_test ∷ []);
        exit = (4, 2);
      }

-- If all tests return, the runner reports each as running and passed, in order, between the two
-- counts, and writes 1 to port 4. If one does not, the run stops at the first such test: those
-- before it are reported as passed, that one as running, then the panic, and 2 is written to port
-- 4.
pub test_runner-Reports : (tests : List Testable) → Reports tests
unfolding test_runner run_tests
test_runner-Reports tests = record {
  all_pass = λ all.
      ap (run_tests (length tests) (running_tests (length tests) ∷ [])) (sym (append-nil tests))
      ∙ run_tests-passes tests [] (length tests) (running_tests (length tests) ∷ []) all;
  first_failure = λ before after test e all fails.
      ap (run_tests (length tests) (running_tests (length tests) ∷ [])) e
      ∙ run_tests-passes before (test ∷ after) (length tests) (running_tests (length tests) ∷ [])
          all
      ∙ (rw fails (simp append_assoc refl));
}
