-- ===== src/Runner/Tests.antt =====
-- The theorem about the test runner, at two tests of which the second panics.
use osdev_hikalium.Prelude.{true, false, List, [], ◌∷◌}
use osdev_hikalium.Runner.{Testable, Reports, test_runner-Reports}

abbrev two_tests : List Testable
two_tests = record { name = 1; returns = true } ∷ record { name = 2; returns = false } ∷ []

test_runner-Reports_example : Reports two_tests
test_runner-Reports_example = test_runner-Reports two_tests
