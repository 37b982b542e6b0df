-- ===== src/RunLaunch/Tests.antt =====
-- run_launch.py at two requests for one pair and an instance of two attempts.
use agent_evals.Prelude.{
  ◌≤◌, ◌<◌, ◌≡◌, refl, ◌=s◌, true, false, length, drop, some, [], ◌∷◌, ◌++◌, arith, String, List,
}
use agent_evals.Prelude.Text.{codes, eq_text}
use agent_evals.RunLaunch.{
  Run, System, is_violation, find_run, Act, claims, sets_status, releases, perform_all,
  LaunchRequest, active_key_of, pair_of, keys_of, attempts_of, attempts_from, launch_acts, launched,
  duplicate_run, launch_run, finalise_run, finish_abort,
}
use agent_evals.RunLaunch.Mutex.{IsExclusive, perform_all-IsExclusive, launch_run-excludes}
use agent_evals.RunLaunch.Seeds.{AllSeeded, launch_run-AllSeeded}
use agent_evals.RunLaunch.Whole.{launch_run-launched}
use agent_evals.RunLaunch.Ends.{all_up, is_live, is_ended}
use agent_evals.RunLaunch.Keys.{launch_run-revoked, launch_run-leak}
use agent_evals.RunLaunch.Races.{launch_acts-overwrite}

abbrev old_run : Run
old_run = record {
  run_id = "run-0";
  active_key = some (active_key_of "aider" "cheap-oss-model");
  status = "running";
  litellm_key_id = some "token-0";
  openrouter_key_hash = some "hash-0";
}

abbrev system : System
system = record {
  runs = old_run ∷ [];
  virtual_keys = "run-0" ∷ [];
  provider_keys = "hash-0" ∷ [];
  rows = [];
  jobs = [];
}

abbrev request : String → LaunchRequest
request run = record {
  run_id = run;
  harness = "codex";
  model_alias = "cheap-oss-model";
  key_id = "token-1";
  key_hash = "hash-1";
  instances = "django-1" ∷ [];
  attempts_per_instance = 2;
  now = 5;
}

free : is_violation "run-1" (pair_of (request "run-1")) system.runs ≡ false
unfolding is_violation ◌=s◌ eq_text
free = refl

alone : IsExclusive system.runs
unfolding IsExclusive
alone = (refl, tt)

-- Two claims of a pair, a release between a third, and an abort.
abbrev acts : List Act
acts =
    claims "run-1" (codes "codex:cheap-oss-model")
    ∷ claims "run-2" (codes "codex:cheap-oss-model")
    ∷ sets_status "run-1" "aborted"
    ∷ releases "run-1"
    ∷ claims "run-3" (codes "codex:cheap-oss-model")
    ∷ []

perform_all-IsExclusive_example : IsExclusive (perform_all acts system).runs
perform_all-IsExclusive_example = perform_all-IsExclusive acts system alone

launch_run-excludes_example :
    launch_run false 20 (request "run-2") (launch_run false 3 (request "run-1") system).0
    ≡ ((launch_run false 3 (request "run-1") system).0, duplicate_run (some "run-1"))
launch_run-excludes_example =
    launch_run-excludes (request "run-1") (request "run-2") 3 20 system refl free

launch_run-AllSeeded_example :
    AllSeeded
      (launch_run false 8 (request "run-1") system).0.jobs
      (launch_run false 8 (request "run-1") system).0.rows
launch_run-AllSeeded_example = launch_run-AllSeeded false 8 (request "run-1") system tt

ten_acts : length (launch_acts (request "run-1")) ≤ 10
unfolding launch_acts attempts_of attempts_from
ten_acts = omega arith

launch_run-launched_example :
    ((launch_run false 10 (request "run-1") system).1 ≡ launched 2 2)
    × ((launch_run false 10 (request "run-1") system).0.jobs ≡ [] ++ keys_of (request "run-1"))
    × AllSeeded (keys_of (request "run-1")) (launch_run false 10 (request "run-1") system).0.rows
    × (find_run "run-1" (launch_run false 10 (request "run-1") system).0.runs
        ≡ some (record {
          run_id = "run-1";
          active_key = some (pair_of (request "run-1"));
          status = "running";
          litellm_key_id = some "token-1";
          openrouter_key_hash = some "hash-1";
        }))
launch_run-launched_example = launch_run-launched 10 (request "run-1") system free ten_acts

token_present : ("token-1" =s "") ≡ false
unfolding ◌=s◌
token_present = refl

hash_present : ("hash-1" =s "") ≡ false
unfolding ◌=s◌
hash_present = refl

launch_run-revoked_example :
    ((is_live "run-1"
          (finish_abort all_up "run-1" (launch_run false 6 (request "run-1") system).0).virtual_keys
        ≡ false)
      × (is_live "hash-1"
            (finish_abort all_up "run-1"
              (launch_run false 6 (request "run-1") system).0).provider_keys
          ≡ false)
      × (is_ended "aborted" (
            find_run "run-1"
              (finish_abort all_up "run-1" (launch_run false 6 (request "run-1") system).0).runs)
          ≡ true))
    × ((is_live "run-1"
            (finalise_run all_up "run-1"
              (launch_run false 6 (request "run-1") system).0).virtual_keys
          ≡ false)
        × (is_live "hash-1"
              (finalise_run all_up "run-1"
                (launch_run false 6 (request "run-1") system).0).provider_keys
            ≡ false)
        × (is_ended "completed" (
              find_run "run-1"
                (finalise_run all_up "run-1" (launch_run false 6 (request "run-1") system).0).runs)
            ≡ true))
launch_run-revoked_example =
    launch_run-revoked 6 (request "run-1") system free (omega arith) token_present hash_present

launch_run-leak_example :
    (is_live "run-1"
        (finish_abort all_up "run-1" (launch_run false 3 (request "run-1") system).0).virtual_keys
      ≡ true)
    × (is_ended "aborted" (
          find_run "run-1"
            (finish_abort all_up "run-1" (launch_run false 3 (request "run-1") system).0).runs)
        ≡ true)
launch_run-leak_example =
    launch_run-leak 3 (request "run-1") system free (omega arith) (omega arith)

six_before : 6 < length (launch_acts (request "run-1"))
unfolding launch_acts attempts_of attempts_from
six_before = omega arith

launch_acts-overwrite_example :
    is_ended "running" (
      find_run "run-1"
        (perform_all
          (drop 6 (launch_acts (request "run-1")))
          (finish_abort all_up "run-1" (launch_run false 6 (request "run-1") system).0)).runs)
    ≡ true
launch_acts-overwrite_example = launch_acts-overwrite 6 (request "run-1") system free six_before
