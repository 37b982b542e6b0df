-- ===== src/Routing/Tests.antt =====
-- The agent's environment at a concrete one.
use agent_evals.Prelude.{◌≡◌, refl, some, [], ◌∷◌, ◌=s◌}
use agent_evals.Prelude.Text.{codes, starts_with}
use agent_evals.Queue.{Environment}
use agent_evals.Routing.{AgentUser, is_denied, allowed, env_set, as_user}

abbrev user : AgentUser
user = record { name = codes "agent"; uid = 1000; gid = 1000; home = codes "/home/agent" }

abbrev environment : Environment
environment =
    ("HOME", codes "/root")
    ∷ ("AWS_CONTAINER_CREDENTIALS_RELATIVE_URI", codes "/v2/credentials")
    ∷ ("PATH", codes "/usr/bin")
    ∷ []

no_credentials : allowed environment ≡ ("HOME", codes "/root") ∷ ("PATH", codes "/usr/bin") ∷ []
unfolding allowed is_denied starts_with ◌=s◌
no_credentials = refl

own_home :
    as_user (some user) (allowed environment)
    ≡ ("HOME", codes "/home/agent")
      ∷ ("PATH", codes "/usr/bin")
      ∷ ("USER", codes "agent")
      ∷ ("LOGNAME", codes "agent")
      ∷ []
unfolding as_user allowed is_denied starts_with env_set ◌=s◌
own_home = refl
