-- ===== src/Routing/Agent.antt =====
-- routing.py `agent_environment`: what of the worker's environment reaches the agent.
use agent_evals.Prelude.{
  ℕ, ◌≡◌, refl, ap, sym, ◌∙◌, String, true, false, Option, none, some, [], ◌∷◌, ◌=s◌, =s-eq,
  =s_refl, if◌then◌else◌, Bool-cases, inl, inr, arith,
}
use agent_evals.Prelude.Text.{Text, starts_with}
use agent_evals.Queue.{Environment}
use agent_evals.Routing.{
  env_get, env_set, is_denied, AgentUser, Passwd, agent_user, allowed, as_user, agent_environment,
}

get-allowed :
    (name : String) (env : Environment)
    → env_get name (allowed env) ≡ (if is_denied name then none else env_get name env)
unfolding env_get allowed
get-allowed name [] = ground arith
get-allowed name ((n, v) ∷ env) = elim (Bool-cases (n =s name)) [
  | inl e ↦
      let same : is_denied n ≡ is_denied name = ap is_denied (=s-eq n name e) in
      elim (Bool-cases (is_denied name)) [
        | inl f ↦ rw (same, f, get-allowed name env, f) refl
        | inr f ↦ rw (same, f, env_get, e) refl
      ]
  | inr e ↦ elim (Bool-cases (is_denied n)) [
    | inl f ↦ rw (f, get-allowed name env, e) refl
    | inr f ↦ rw (f, env_get, e, get-allowed name env) refl
  ]
]

get-env_set :
    (name n : String) (v : Text) (env : Environment)
    → env_get name (env_set n v env) ≡ (if n =s name then some v else env_get name env)
unfolding env_get env_set
get-env_set name n v [] = refl
get-env_set name n v ((m, w) ∷ env) = elim (Bool-cases (m =s n)) [
  | inl e ↦
      let same : (m =s name) ≡ (n =s name) = ap (λ x. x =s name) (=s-eq m n e) in
      elim (Bool-cases (n =s name)) [
        | inl f ↦ rw (e, env_get, same, f) refl
        | inr f ↦ rw (e, env_get, same, f) refl
      ]
  | inr e ↦ elim (Bool-cases (m =s name)) [
    | inl f ↦ elim (Bool-cases (n =s name)) [
      | inl g ↦
          let same : m ≡ n = =s-eq m name f ∙ sym (=s-eq n name g) in
          absurd (let clash : true ≡ false = sym (ap (λ x. x =s n) same ∙ =s_refl n) ∙ e in cc)
      | inr g ↦ rw (e, env_get, f, g) refl
    ]
    | inr f ↦ rw (e, env_get, f, get-env_set name n v env) refl
  ]
]

-- What the agent's user sets a name to.
abbrev pub user_value : Option AgentUser → String → Option Text
user_value none name = none
user_value (some u) name =
    if "LOGNAME" =s name
    then some u.name
    else if "USER" =s name
    then some u.name
    else if "HOME" =s name
    then some u.home
    else none

abbrev pub first_of : Option Text → Option Text → Option Text
first_of none o = o
first_of (some v) o = some v

get-as_user :
    (user : Option AgentUser) (name : String) (env : Environment)
    → env_get name (as_user user env) ≡ first_of (user_value user name) (env_get name env)
unfolding as_user
get-as_user none name env = refl
get-as_user (some u) name env = rw (get-env_set, get-env_set, get-env_set) (ground arith)

-- A name in the agent's environment has the value that the agent's user sets, or else the worker's own where
-- the name is not denied, and is otherwise absent.
pub agent_environment-get :
    (passwd : Passwd) (euid : ℕ) (env : Environment) (name : String)
    → env_get name (agent_environment passwd euid env)
      ≡ first_of
          (user_value (agent_user passwd euid env) name)
          (if is_denied name then none else env_get name env)
unfolding agent_environment
agent_environment-get passwd euid env name = rw (get-as_user, get-allowed) refl

allowed_names :
    (is_denied "LOGNAME" ≡ false) × (is_denied "USER" ≡ false) × (is_denied "HOME" ≡ false)
unfolding is_denied starts_with ◌=s◌
allowed_names = (refl, refl, refl)

other_name : (n name : String) → is_denied n ≡ false → is_denied name ≡ true → (n =s name) ≡ false
other_name n name free denied = elim (Bool-cases (n =s name)) [
  | inl e ↦
      let same : is_denied n ≡ is_denied name = ap is_denied (=s-eq n name e) in
      absurd (let clash : false ≡ true = sym free ∙ (same ∙ denied) in cc)
  | inr e ↦ e
]

user_value-denied :
    (user : Option AgentUser) (name : String) → is_denied name ≡ true → user_value user name ≡ none
user_value-denied none name h = refl
user_value-denied (some u) name h =
    let (a, b, c) = allowed_names in
    rw (other_name "LOGNAME" name a h, other_name "USER" name b h, other_name "HOME" name c h) refl

-- No denied name, neither a key of the gateway nor a queue nor a name with the prefix AWS_ or ECS_, reaches
-- the agent, whoever it runs as and whatever the worker's environment holds.
pub agent_environment-denied :
    (passwd : Passwd) (euid : ℕ) (env : Environment) (name : String)
    → is_denied name ≡ true
    → env_get name (agent_environment passwd euid env) ≡ none
agent_environment-denied passwd euid env name h =
    rw
      (
        agent_environment-get passwd euid env name,
        user_value-denied (agent_user passwd euid env) name h,
        h,
      )
      refl
