-- ===== src/Results/Write/Evidence.antt =====
-- results_writer.py: what the evidence columns of a row hold after messages in any order.
use agent_evals.Prelude.{
  ℕ, zero, suc, ◌+◌, ◌≤◌, ◌<◌, ◌≡◌, refl, sym, ◌∙◌, Bool, true, false, ◌&&◌, Option, none, some,
  List, [], ◌∷◌, ltb, ◌=s◌, if◌then◌else◌, Bool-cases, ◌⊎◌, inl, inr, arith, get_elem?, or_default,
}
use agent_evals.Results.{
  Json, null, text, int, float, bool, texts, ResultMessage, Key, Row, key_of, evidence_values,
  core_evidence_values, result_extra_values,
}
use agent_evals.Results.Table.{find, same_key-eq}
use agent_evals.Results.Write.{
  state_rank, coalesce, coalesce_all, inserted, updated, filled, upserted, Records, Delivery, step,
  deliver,
}
use agent_evals.Results.Write.Ranks.{level, level_at, writes, message_level, find-step, level-step}

-- A column, by its place among `_EVIDENCE_COLUMNS`.
abbrev pub at : ℕ → List Json → Json
at i values = or_default (get_elem? values i) null

abbrev evidence_of : Option Row → List Json
evidence_of none = []
evidence_of (some r) = r.evidence

abbrev pub column_at : ℕ → Key → Records → Json
column_at i k s = at i (evidence_of (find k s.rows))

abbrev pub is_null : Json → Bool
is_null null = true
is_null v = false

coalesce-null : (a : Json) → coalesce a null ≡ a
coalesce-null null = refl
coalesce-null (text s) = refl
coalesce-null (int n) = refl
coalesce-null (float n) = refl
coalesce-null (bool b) = refl
coalesce-null (texts xs) = refl

at-coalesce_all :
    (i : ℕ) (xs ys : List Json) → at i (coalesce_all xs ys) ≡ coalesce (at i xs) (at i ys)
unfolding coalesce_all
at-coalesce_all i [] ys = refl
at-coalesce_all i (x ∷ xs) [] = sym (coalesce-null _)
at-coalesce_all zero (x ∷ xs) (y ∷ ys) = refl
at-coalesce_all (suc i) (x ∷ xs) (y ∷ ys) = at-coalesce_all i xs ys

at-upserted :
    (now : ℕ) (m : ResultMessage) (o : Option Row) (i : ℕ)
    → at i ((upserted now m o).0.evidence) ≡ (
        if ltb (level o) (state_rank m.state + 1)
        then coalesce (at i (evidence_values m)) (at i (evidence_of o))
        else coalesce (at i (evidence_of o)) (at i (evidence_values m)))
unfolding upserted inserted updated filled
at-upserted now m none i = rw (coalesce-null (at i (evidence_values m))) (ground arith)
at-upserted now m (some r) i = ground (
  arith,
  at-coalesce_all i r.evidence (evidence_values m),
  at-coalesce_all i (evidence_values m) r.evidence,
)

coalesce-kept : (a b : Json) → is_null (coalesce a b) ≡ (is_null a && is_null b)
coalesce-kept a b = ground arith

coalesce_first : (a b : Json) → is_null a ≡ false → coalesce a b ≡ a
coalesce_first a b h = ground arith

coalesce_either : (a b : Json) → (coalesce a b ≡ a) ⊎ (coalesce a b ≡ b)
coalesce_either null b = inr refl
coalesce_either (text s) b = inl refl
coalesce_either (int n) b = inl refl
coalesce_either (float n) b = inl refl
coalesce_either (bool b) c = inl refl
coalesce_either (texts xs) b = inl refl

-- A value of a column is the one of before, or that of one of the messages for the row.
abbrev pub IsFrom : ℕ → Key → Json → Json → List Delivery → Type 0
IsFrom i k v old [] = v ≡ old
IsFrom i k v old (d ∷ ds) =
    ((key_of d.message ≡ k) × (v ≡ at i (evidence_values d.message))) ⊎ IsFrom i k v old ds

-- A message written to its row.
module _ (d : Delivery) (s : Records) (k : Key) (harness : k.phase =s "eval" ≡ false) where
  column-step :
      (i : ℕ)
      → column_at i k (step d s) ≡ (
          if writes k s d
          then if ltb (level_at k s) (message_level d)
            then coalesce (at i (evidence_values d.message)) (column_at i k s)
            else coalesce (column_at i k s) (at i (evidence_values d.message))
          else column_at i k s)
  column-step i = elim (Bool-cases (writes k s d)) [
    | inl e ↦
        let same : key_of d.message ≡ k = same_key-eq _ _ (ground arith) in
        rw (find-step d s k harness, e, at-upserted, same) refl
    | inr e ↦ rw (find-step d s k harness, e) refl
  ]

  kept-step :
      (i : ℕ) → is_null (column_at i k s) ≡ false → is_null (column_at i k (step d s)) ≡ false
  kept-step i h =
      let new = at i (evidence_values d.message) in
      let old = column_at i k s in
      rw (column-step i) (ground (arith, coalesce-kept new old, coalesce-kept old new))

  carried-step :
      (i : ℕ)
      → writes k s d ≡ true
      → is_null (at i (evidence_values d.message)) ≡ false
      → is_null (column_at i k (step d s)) ≡ false
  carried-step i w h =
      let new = at i (evidence_values d.message) in
      let old = column_at i k s in
      rw (column-step i) (ground (arith, coalesce-kept new old, coalesce-kept old new))

  source-step :
      (i : ℕ)
      → (column_at i k (step d s) ≡ column_at i k s)
        ⊎ ((key_of d.message ≡ k) × (column_at i k (step d s) ≡ at i (evidence_values d.message)))
  source-step i = elim (Bool-cases (writes k s d)) [
    | inr e ↦ inl (rw (column-step i, e) refl)
    | inl e ↦
        let own : key_of d.message ≡ k = same_key-eq _ _ (ground arith) in
        let new = at i (evidence_values d.message) in
        let old = column_at i k s in
        elim (Bool-cases (ltb (level_at k s) (message_level d))) [
          | inl f ↦ elim (coalesce_either new old) [
            | inl g ↦ inr (own, rw (column-step i, e, f) g)
            | inr g ↦ inl (rw (column-step i, e, f) g)
          ]
          | inr f ↦ elim (coalesce_either old new) [
            | inl g ↦ inl (rw (column-step i, e, f) g)
            | inr g ↦ inr (own, rw (column-step i, e, f) g)
          ]
        ]
  ]

  settled-step :
      (i : ℕ)
      → message_level d ≤ level_at k s
      → is_null (column_at i k s) ≡ false
      → column_at i k (step d s) ≡ column_at i k s
  settled-step i low h =
      rw (column-step i)
        (ground (arith, coalesce_first (column_at i k s) (at i (evidence_values d.message)) h))

message_level_bound : (d : Delivery) → message_level d ≤ 5
unfolding state_rank
message_level_bound d = ground arith

module _ (k : Key) (harness : k.phase =s "eval" ≡ false) (i : ℕ) where
  kept-deliver :
      (ds : List Delivery) (s : Records)
      → is_null (column_at i k s) ≡ false
      → is_null (column_at i k (deliver ds s)) ≡ false
  unfolding deliver
  kept-deliver [] s h = h
  kept-deliver (d ∷ ds) s h = kept-deliver ds (step d s) (kept-step d s k harness i h)

  IsFrom-earlier :
      (v old new : Json) (d : Delivery) (ds : List Delivery)
      → (new ≡ old) ⊎ ((key_of d.message ≡ k) × (new ≡ at i (evidence_values d.message)))
      → IsFrom i k v new ds
      → IsFrom i k v old (d ∷ ds)
  IsFrom-earlier v old new d [] (inl same) from = inr (from ∙ same)
  IsFrom-earlier v old new d [] (inr (own, same)) from = inl (own, from ∙ same)
  IsFrom-earlier v old new d (e ∷ ds) change (inl here) = inr (inl here)
  IsFrom-earlier v old new d (e ∷ ds) change (inr later) =
      elim (IsFrom-earlier v old new d ds change later) [
        | inl first ↦ inl first
        | inr rest ↦ inr (inr rest)
      ]

  deliver-IsFrom :
      (ds : List Delivery) (s : Records)
      → IsFrom i k (column_at i k (deliver ds s)) (column_at i k s) ds
  unfolding deliver
  deliver-IsFrom [] s = refl
  deliver-IsFrom (d ∷ ds) s =
      IsFrom-earlier _ _ _ d ds (source-step d s k harness i) (deliver-IsFrom ds (step d s))

  -- After a message that is written to a row of the harness phase, advancing it or not, and after any messages
  -- then, each column for which it has a value, a default counting as one, is not NULL, and holds what the row
  -- held before or what one of these messages for the row has for it.
  pub evidence_carried :
      (d : Delivery) (ds : List Delivery) (s : Records)
      → writes k s d ≡ true
      → is_null (at i (evidence_values d.message)) ≡ false
      → (is_null (column_at i k (deliver (d ∷ ds) s)) ≡ false)
        × IsFrom i k (column_at i k (deliver (d ∷ ds) s)) (column_at i k s) (d ∷ ds)
  unfolding deliver
  evidence_carried d ds s w h =
      (kept-deliver ds (step d s) (carried-step d s k harness i w h), deliver-IsFrom (d ∷ ds) s)

  -- What a row of the highest rank has in an evidence column stays as it is, whatever messages come later.
  pub evidence_settled :
      (ds : List Delivery) (s : Records)
      → 4 < level_at k s
      → is_null (column_at i k s) ≡ false
      → column_at i k (deliver ds s) ≡ column_at i k s
  unfolding deliver
  evidence_settled [] s high h = refl
  evidence_settled (d ∷ ds) s high h =
      let same = settled-step d s k harness i (omega (arith, message_level_bound d, high)) h in
      let high' : 4 < level_at k (step d s) = rw (level-step d s k harness) (ground arith) in
      evidence_settled ds (step d s) high' (rw same h) ∙ same

-- The place of `native_trajectory_s3_key` among the columns.
abbrev pub native_trajectory_column : ℕ
native_trajectory_column = 54

-- After a message of the highest rank whose `native_trajectory_s3_key` is the empty default, such as an
-- abort's, has advanced a row, the row keeps the empty key: no later message's key is ever filled in.
pub late_key_discarded :
    (d : Delivery) (ds : List Delivery) (s : Records)
    → d.message.phase ≡ "harness"
    → writes (key_of d.message) s d ≡ true
    → level_at (key_of d.message) s ≤ 4
    → state_rank d.message.state ≡ 4
    → d.message.native_trajectory_s3_key ≡ ""
    → column_at native_trajectory_column (key_of d.message) (deliver (d ∷ ds) s) ≡ text ""
unfolding deliver evidence_values core_evidence_values result_extra_values ◌=s◌
late_key_discarded d ds s phase w low top empty =
    let k = key_of d.message in
    let harness : k.phase =s "eval" ≡ false = rw phase refl in
    let i = native_trajectory_column in
    let set : column_at i k (step d s) ≡ text "" =
      rw (column-step d s k harness i, w, top, empty) (ground arith) in
    let high : 4 < level_at k (step d s) = rw (level-step d s k harness, w, top) (omega arith) in
    evidence_settled k harness i ds (step d s) high (rw set refl) ∙ set
