-- ===== src/RunLaunch/Mutex.antt =====
-- run_launch.py: the partial index on `active_key` as the mutex of a launch, whatever acts come between.
use agent_evals.Prelude.{
  ℕ, ◌≡◌, ◌⊎◌, refl, ap, ◌∙◌, String, Bool, true, false, ◌||◌, Option, none, some, List, [], ◌∷◌,
  ◌=s◌, if◌then◌else◌, any, take, Bool-cases, inl, inr, arith,
}
use agent_evals.Prelude.Text.{Text, eq_text_refl}
use agent_evals.RunLaunch.Own.{Leads, own_all, own-kept, launch-Leads}
use agent_evals.RunLaunch.{
  Run, System, is_text, holds, holder, has_run, claimed_run, is_violation, update, with_status,
  with_keys, released, completed, Act, claims, sets_status, generates_key, mints_key, records_keys,
  seeds, sends, deletes_key, disables_key, releases, completes, perform, perform_all, LaunchRequest,
  pair_of, launch_acts, duplicate_run, launch_run,
}

abbrev clash_key : Option Text → Option Text → Bool
clash_key none b = false
clash_key (some k) b = is_text k b

-- Two rows that the primary key or the index keeps apart.
abbrev clash : Run → Run → Bool
clash r q = q.run_id =s r.run_id || clash_key r.active_key q.active_key

unfoldable pub IsExclusive : List Run → Type 0
IsExclusive [] = Unit
IsExclusive (r ∷ rs) = (any (clash r) rs ≡ false) × IsExclusive rs

claimed-clash :
    (run : String) (key : Text) (rs : List Run)
    → any (clash (claimed_run run key)) rs ≡ (any (λ r. r.run_id =s run) rs || any (holds key) rs)
claimed-clash run key [] = refl
claimed-clash run key (r ∷ rs) = ground (arith, claimed-clash run key rs)

-- An update that keeps the id and keeps or clears the active key.
abbrev Lowers : (Run → Run) → Type 0
Lowers f =
    (r : Run)
    → ((f r).run_id ≡ r.run_id) × (((f r).active_key ≡ r.active_key) ⊎ ((f r).active_key ≡ none))

clash_key-none : (a : Option Text) → clash_key a none ≡ false
clash_key-none none = refl
clash_key-none (some k) = refl

lowered_left : (f : Run → Run) → Lowers f → (r q : Run) → clash r q ≡ false → clash (f r) q ≡ false
lowered_left f lowers r q h =
    let (same, key) = lowers r in
    elim key [ inl e ↦ rw (same, e) h | inr e ↦ rw (same, e) (ground arith) ]

lowered_right : (f : Run → Run) → Lowers f → (r q : Run) → clash r q ≡ false → clash r (f q) ≡ false
lowered_right f lowers r q h =
    let (same, key) = lowers q in
    elim key [
      | inl e ↦ rw (same, e) h
      | inr e ↦ rw (same, e, clash_key-none r.active_key) (ground arith)
    ]

-- An updated row.
abbrev changed : String → (Run → Run) → Run → Run
changed run f r = if r.run_id =s run then f r else r

if_lowered : (f : Run → Run) → Lowers f → (b : Bool) → Lowers (λ r. if b then f r else r)
if_lowered f lowers true r = lowers r
if_lowered f lowers false r = (refl, inl refl)

neither : (a b : Bool) → (if a then true else b) ≡ false → (a ≡ false) × (b ≡ false)
neither a b h = (ground arith, ground arith)

any-clash-left :
    (r r' : Run) (rs : List Run)
    → ((q : Run) → clash r q ≡ false → clash r' q ≡ false)
    → any (clash r) rs ≡ false
    → any (clash r') rs ≡ false
any-clash-left r r' [] less h = refl
any-clash-left r r' (q ∷ rs) less h =
    let (here, rest) = (neither (clash r q) (any (clash r) rs) h) in
    rw (less q here, any-clash-left r r' rs less rest) refl

any-clash-update :
    (r : Run) (run : String) (f : Run → Run) (rs : List Run)
    → Lowers f
    → any (clash r) rs ≡ false
    → any (clash r) (update run f rs) ≡ false
unfolding update
any-clash-update r run f [] lowers h = refl
any-clash-update r run f (q ∷ rs) lowers h =
    let (here, rest) = neither (clash r q) (any (clash r) rs) h in
    let below = any-clash-update r run f rs lowers rest in
    rw
      (lowered_right (changed run f) (λ q. if_lowered f lowers (q.run_id =s run) q) r q here, below)
      refl

update-IsExclusive :
    (run : String) (f : Run → Run) (rs : List Run)
    → Lowers f
    → IsExclusive rs
    → IsExclusive (update run f rs)
unfolding update IsExclusive
update-IsExclusive run f [] lowers v = tt
update-IsExclusive run f (r ∷ rs) lowers (fresh, v) = (
  any-clash-update (changed run f r) run f rs lowers (
      any-clash-left r (changed run f r) rs
        (lowered_left (changed run f) (λ q. if_lowered f lowers (q.run_id =s run) q) r) fresh),
  update-IsExclusive run f rs lowers v,
)

perform-IsExclusive : (a : Act) (s : System) → IsExclusive s.runs → IsExclusive (perform a s).runs
unfolding perform IsExclusive is_violation
perform-IsExclusive (claims run key) s v = elim (Bool-cases (is_violation run key s.runs)) [
  | inl e ↦ rw e v
  | inr e ↦ rw e (claimed-clash run key s.runs ∙ e, v)
]
perform-IsExclusive (sets_status run status) s v =
    update-IsExclusive run (with_status status) s.runs (λ r. (refl, inl refl)) v
perform-IsExclusive (generates_key run) s v = v
perform-IsExclusive (mints_key hash) s v = v
perform-IsExclusive (records_keys run id hash) s v =
    update-IsExclusive run (with_keys id hash) s.runs (λ r. (refl, inl refl)) v
perform-IsExclusive (seeds now ks) s v = v
perform-IsExclusive (sends k) s v = v
perform-IsExclusive (deletes_key run) s v = v
perform-IsExclusive (disables_key hash) s v = v
perform-IsExclusive (releases run) s v =
    update-IsExclusive run released s.runs (λ r. (refl, inr refl)) v
perform-IsExclusive (completes run) s v =
    update-IsExclusive run completed s.runs (λ r. (refl, inr refl)) v

-- In whatever order the acts of any launches, finalisations and aborts come, no two rows of `runs` ever have
-- the same id or hold the same pair.
pub perform_all-IsExclusive :
    (acts : List Act) (s : System) → IsExclusive s.runs → IsExclusive (perform_all acts s).runs
unfolding perform_all
perform_all-IsExclusive [] s v = v
perform_all-IsExclusive (a ∷ acts) s v =
    perform_all-IsExclusive acts (perform a s) (perform-IsExclusive a s v)

holder-first :
    (key : Text) (p : Run) (s : System)
    → p.active_key ≡ some key
    → Leads p s
    → (holder key s.runs ≡ some p.run_id) × (any (holds key) s.runs ≡ true)
unfolding holder
holder-first key p s same v =
    let held : holds key p ≡ true = ap (is_text key) same ∙ eq_text_refl key in
    rw (v.first, held) (refl, refl)

-- A launch that claimed its pair, cut off anywhere or complete, keeps the next launch of the pair out: that one
-- is refused with the id of the first run, and neither mints nor writes anything.
pub launch_run-excludes :
    (q p : LaunchRequest) (n m : ℕ) (s : System)
    → pair_of p ≡ pair_of q
    → is_violation q.run_id (pair_of q) s.runs ≡ false
    → launch_run false m p (launch_run false n q s).0
      ≡ ((launch_run false n q s).0, duplicate_run (some q.run_id))
unfolding launch_run is_violation
launch_run-excludes q p n m s same free =
    let acts = take n (launch_acts q) in
    let u = perform_all acts (perform (claims q.run_id (pair_of q)) s) in
    let (id, key) = own-kept acts (claimed_run q.run_id (pair_of q)) in
    let (first, held) =
      holder-first (pair_of q) (own_all acts (claimed_run q.run_id (pair_of q))) u key
        (launch-Leads q n s free) in
    let taken : (has_run p.run_id u.runs || any (holds (pair_of q)) u.runs) ≡ true = ground arith in
    rw (free, same, taken, first, id) refl
