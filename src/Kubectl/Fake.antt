-- ===== src/Kubectl/Fake.antt =====
-- internal/kubectl/fake_test_harness.go: a runner that records its commands and answers as it was told.
use dev_connect.Prelude.{none, List, [], ◌∷◌, ◌++◌, pos, is_zero, not, if◌then◌else◌}
use dev_connect.Result.{Result, ok, err, kubectl_failed}
use dev_connect.Kubectl.{Command, Output, Runner}

-- The answers that are left, and the commands so far.
pub record FakeRunner : Type 0 where
  pub results : List Output
  pub commands : List Command

unfoldable pub new_fake_runner : List Output → FakeRunner
new_fake_runner results = record { results = results; commands = [] }

abbrev no_result : Output
no_result = record { stdout = []; stderr = []; exit_code = pos 0 }

abbrev first_result : List Output → Output
first_result [] = no_result
first_result (r ∷ rs) = r

abbrev rest_of : List Output → List Output
rest_of [] = []
rest_of (r ∷ rs) = rs

unfoldable pub run_fake : Command → FakeRunner → Result Output × FakeRunner
run_fake command s =
    let result = first_result s.results in
    let after : FakeRunner = record {
      results = rest_of s.results;
      commands = s.commands ++ command ∷ [];
    } in
    if not (is_zero result.exit_code)
    then (err (kubectl_failed result.exit_code result.stderr), after)
    else (ok result, after)

unfoldable pub fake_runner : Runner FakeRunner
unfolding run_fake
fake_runner = record { run = run_fake; run_until_ready = none; start_until_ready = none }
