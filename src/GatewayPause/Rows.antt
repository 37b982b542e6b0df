-- ===== src/GatewayPause/Rows.antt =====
-- The updates of gateway_pause.py on a table whose ids are unique.
use agent_evals.Prelude.{
  ◌≡◌, refl, ap, ◌∙◌, sym, String, Bool, true, false, ◌&&◌, Option, none, some, List, [], ◌∷◌, ◌=s◌,
  =s-eq, =s_refl, if◌then◌else◌, any, keep, is_some, Bool-cases, inl, inr, arith, map,
}
use agent_evals.GatewayPause.{Run, key_of, mark, update_where, has_id, find_run}

-- The primary key of `runs`.
unfoldable pub IsUnique : List Run → Type 0
IsUnique [] = Unit
IsUnique (r ∷ rs) = (any (has_id r.run_id) rs ≡ false) × IsUnique rs

abbrev pub has_key : Run → Bool
has_key r = is_some (key_of r.litellm_key_id)

=s_comm : (a b : String) → (a =s b) ≡ (b =s a)
=s_comm a b = elim (Bool-cases (a =s b)) [
  | inl e ↦ let same : a ≡ b = =s-eq a b e in rw same refl
  | inr e ↦ elim (Bool-cases (b =s a)) [
    | inl f ↦ let same : b ≡ a = =s-eq b a f in rw same refl
    | inr f ↦ rw (e, f) refl
  ]
]

-- Whether a row of a list that passes a test has the id of a row.
abbrev pub chosen : (Run → Bool) → List Run → Run → Bool
chosen c rows r = any (λ q. c q && has_id q.run_id r) rows

pub chosen-keep :
    (p k : Run → Bool) (rows : List Run) (r : Run)
    → chosen k (keep p rows) r ≡ chosen (λ q. p q && k q) rows r
chosen-keep p k [] r = refl
chosen-keep p k (q ∷ rows) r = ground (arith, chosen-keep p k rows r)

not_chosen :
    (c : Run → Bool) (rows : List Run) (r : Run)
    → any (has_id r.run_id) rows ≡ false
    → chosen c rows r ≡ false
not_chosen c [] r fresh = refl
not_chosen c (q ∷ rows) r fresh =
    let swap = =s_comm q.run_id r.run_id in ground (arith, not_chosen c rows r)

pub update_eq :
    (f g : Run → Bool) (m : Option String) (rows : List Run)
    → ((r : Run) → f r ≡ g r)
    → update_where f m rows ≡ update_where g m rows
unfolding update_where
update_eq f g m [] same = refl
update_eq f g m (r ∷ rows) same = rw (same r, update_eq f g m rows same) refl

-- The row at the head, which no row below shares its id with, does not choose them.
skip_head :
    (b : Bool) (r : Run) (c : Run → Bool) (m : Option String) (rows : List Run)
    → any (has_id r.run_id) rows ≡ false
    → update_where (λ q. if b && has_id r.run_id q then true else c q) m rows
      ≡ update_where c m rows
unfolding update_where
skip_head b r c m [] fresh = refl
skip_head b r c m (q ∷ rows) fresh =
    let below = skip_head b r c m rows in
    elim (Bool-cases (has_id r.run_id q)) [
      | inl e ↦ ground arith
      | inr e ↦ rw (e, below (ground arith)) (ground arith)
    ]

pub update-chosen :
    (c : Run → Bool) (m : Option String) (rows : List Run)
    → IsUnique rows
    → update_where (chosen c rows) m rows ≡ update_where c m rows
unfolding update_where IsUnique
update-chosen c m [] unique = refl
update-chosen c m (r ∷ rows) (fresh, unique) =
    let below = skip_head (c r) r (chosen c rows) m rows fresh ∙ update-chosen c m rows unique in
    rw (below, not_chosen c rows r fresh, =s_refl r.run_id) (ground arith)

pub update-update :
    (f g : Run → Bool) (m : Option String) (rows : List Run)
    → ((r : Run) → f (mark m r) ≡ f r)
    → update_where f m (update_where g m rows)
      ≡ update_where (λ r. if g r then true else f r) m rows
unfolding update_where
update-update f g m [] stable = refl
update-update f g m (r ∷ rows) stable =
    let rest = update-update f g m rows stable in
    elim (Bool-cases (g r)) [
      | inl e ↦ rw (e, stable r, rest) (ground arith)
      | inr e ↦ rw (e, rest) refl
    ]

pub update_nothing : (m : Option String) (rows : List Run) → update_where (λ r. false) m rows ≡ rows
unfolding update_where
update_nothing m [] = refl
update_nothing m (r ∷ rows) = ap (◌∷◌ r) (update_nothing m rows)

-- The first row with an id is the only one.
update_found :
    (id : String) (c : Run → Bool) (m : Option String) (rows : List Run)
    → any (has_id id) rows ≡ false
    → update_where (λ q. has_id id q && c q) m rows ≡ rows
unfolding update_where
update_found id c m [] fresh = refl
update_found id c m (q ∷ rows) fresh = ground (arith, update_found id c m rows)

abbrev pub found : (Run → Bool) → Option Run → Bool
found c none = false
found c (some r) = c r

pub update-find_run :
    (id : String) (c : Run → Bool) (m : Option String) (rows : List Run)
    → IsUnique rows
    → update_where (λ q. has_id id q && c q) m rows
      ≡ (if found c (find_run id rows) then update_where (has_id id) m rows else rows)
unfolding update_where find_run IsUnique
update-find_run id c m [] unique = refl
update-find_run id c m (q ∷ rows) (fresh, unique) = elim (Bool-cases (has_id id q)) [
  | inl e ↦
      let same : q.run_id ≡ id = =s-eq q.run_id id e in
      let fresh_id : any (has_id id) rows ≡ false =
        ap (λ i. any (has_id i) rows) (sym same) ∙ fresh in
      let below = update_found id c m rows fresh_id in
      let also =
        update_eq (has_id id) (λ q. has_id id q && true) m rows (λ r. ground arith)
        ∙ update_found id (λ q. true) m rows fresh_id in
      rw (e, below, also) (ground arith)
  | inr e ↦ let below = update-find_run id c m rows unique in rw (e, below) (ground arith)
]

-- `map` of an operation on one row, as an update with the row's condition.
pub update-map :
    (f : Run → Bool) (m : Option String) (rows : List Run)
    → update_where f m rows ≡ map (λ r. if f r then mark m r else r) rows
unfolding update_where
update-map f m [] = refl
update-map f m (r ∷ rows) = rw (update-map f m rows) refl
