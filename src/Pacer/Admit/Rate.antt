-- ===== src/Pacer/Admit/Rate.antt =====
-- `_ADMIT_LUA` of swebench_eval/gateway/pacer.py over a sequence of calls: the rate that the arrival
-- bucket enforces for the whole fleet, whoever calls and whatever else the ledger holds.
use agent_evals.Prelude.{
  ℕ, ◌+◌, ◌*◌, ◌-◌, ◌≤◌, ◌<◌, ◌^◌, ◌≡◌, ◌⊎◌, inl, inr, Option-cases, refl, ap, ◌∙◌, some, List, [],
  ◌∷◌, min, max, if◌then◌else◌, arith,
}
use agent_evals.Prelude.Int.{
  ℤ, pos, pos_part, neg_part, ◌+ℤ◌, ◌-ℤ◌, ◌≤ℤ◌, sub_ℕ, int_laws, +ℤ_parts, -ℤ_parts, sub_ℕ_parts,
  eq_of_parts, min_ℤ-le_left, min_ℤ-le_right,
}
use agent_evals.Pacer.{Config, Bucket, Ledger}
use agent_evals.Pacer.Admit.{
  nano, Rates, rates, Request, refill, observe, grant, deny, admit, as_stored, stored_level,
}
use agent_evals.Pacer.Admit.Stored.{stored_near, stored_level_near}
use agent_evals.Pacer.Admit.Budget.{admit_cases, axis-none}

-- Calls of the script, each with the server's time.
abbrev pub Trace : Type 0
Trace = List (ℕ × Request)

-- The tokens that the calls of a trace draw from the bucket.
pub drawn : Trace → Ledger → ℕ
drawn [] l = 0
drawn ((now, req) ∷ t) l =
    (if (admit req now l).0.admitted then req.charge else 0) + drawn t (admit req now l).1

abbrev pub count_calls : Trace → ℕ
count_calls [] = 0
count_calls (call ∷ t) = count_calls t + 1

-- The server's time does not go back.
abbrev pub Ordered : ℕ → Trace → Type 0
Ordered start [] = Unit {0}
Ordered start ((now, req) ∷ t) = (start ≤ now) × Ordered now t

abbrev pub ChargesAtMost : ℕ → Trace → Type 0
ChargesAtMost m [] = Unit {0}
ChargesAtMost m ((now, req) ∷ t) = (req.charge ≤ m) × ChargesAtMost m t

abbrev pub last_time : ℕ → Trace → ℕ
last_time start [] = start
last_time start ((now, req) ∷ t) = last_time now t

start-le-last_time : (start : ℕ) (t : Trace) → Ordered start t → start ≤ last_time start t
start-le-last_time start [] o = omega arith
start-le-last_time start ((now, req) ∷ t) o = omega (arith, start-le-last_time now t o.1)

abbrev pub at_level : ℤ → ℕ → Bucket
at_level level upd = record { level = some level; upd = some upd }

refill-le-cap : (now cap rate : ℕ) (b : Bucket) → refill now cap rate b ≤ℤ pos cap
unfolding refill
refill-le-cap now cap rate b = elim (Option-cases b.level) [
  | inl e ↦ rw (e, refill) (omega arith)
  | inr (level, e) ↦ elim (Option-cases b.upd) [
    | inl f ↦ rw (e, f, refill) (omega arith)
    | inr (upd, f) ↦ rw (e, f, refill) (min_ℤ-le_right _ (pos cap))
  ]
]

refill_growth :
    (now cap rate upd : ℕ) (level : ℤ)
    → pos_part (refill now cap rate (at_level level upd)) + neg_part level + upd * rate
      ≤ neg_part (refill now cap rate (at_level level upd)) + pos_part level + now * rate
unfolding refill
refill_growth now cap rate upd level =
    let earned = sub_ℕ (now * rate) (upd * rate) in
    omega (
      arith,
      min_ℤ-le_left (level +ℤ earned) (pos cap),
      +ℤ_parts level earned,
      sub_ℕ_parts (now * rate) (upd * rate),
    )

covered :
    (charge head burst m : ℕ) (level : ℤ)
    → charge ≤ m
    → pos (min (charge + head) burst * nano) ≤ℤ level
    → charge * nano + neg_part level ≤ pos_part level + (m - burst) * nano
covered charge head burst m level h t = omega arith

-- One call: the level that the refill gave, and what the call leaves of it and adds to the draw.
module _ (req : Request) (now : ℕ) (l : Ledger) where
  unfoldable pub level_of : ℤ
  level_of = refill now ((rates l.config).c_burst * nano) (rates l.config).r_tok l.bucket

  level_of-eq :
      {cfg : Config} {b : Bucket}
      → l.config ≡ cfg
      → l.bucket ≡ b
      → level_of ≡ refill now ((rates cfg).c_burst * nano) (rates cfg).r_tok b
  unfolding level_of
  level_of-eq same bucket i =
      refill now ((rates (same i)).c_burst * nano) (rates (same i)).r_tok (bucket i)

  level_of-le : level_of ≤ℤ pos ((rates l.config).c_burst * nano)
  unfolding level_of
  level_of-le = refill-le-cap now ((rates l.config).c_burst * nano) (rates l.config).r_tok l.bucket

  unfoldable pub draw : ℕ
  draw = if (admit req now l).0.admitted then req.charge else 0

  config-admit : (admit req now l).1.config ≡ l.config
  unfolding grant deny
  config-admit = elim (admit_cases req now l) [ inl (e, g) ↦ rw g | inr (a, e, d) ↦ rw d ]

  -- The level that the call leaves, before it is written as a text.
  unfoldable pub level_left : ℤ
  level_left = level_of -ℤ pos (draw * nano)

  bucket-admit : (admit req now l).1.bucket ≡ at_level (stored_level level_left) (as_stored now)
  unfolding level_of draw level_left grant deny observe
  bucket-admit = elim (admit_cases req now l) [
    | inl (e, g) ↦ rw g
    | inr (a, e, d) ↦
        rw d
          (ap (λ z. at_level (stored_level z) (as_stored now)) (eq_of_parts _ _ (omega int_laws)))
  ]

  -- A draw leaves the level no deeper below zero than the charge goes above the capacity.
  draw_covered :
      (m : ℕ)
      → req.charge ≤ m
      → (draw ≡ 0)
        ⊎ (draw * nano + neg_part level_of
            ≤ pos_part level_of + (m - (rates l.config).c_burst) * nano)
  unfolding level_of draw grant deny observe
  draw_covered m h = elim (admit_cases req now l) [
    | inl (e, g) ↦ inr (
        rw g (
          covered req.charge (observe req now l).head_est _ m _ h
            (axis-none req (observe req now l) e).0))
    | inr (a, e, d) ↦ inl (rw d)
  ]

add_times : (a r : ℕ) → (a + 50) * r ≡ a * r + 50 * r
add_times a r = grind arith

suc_times : (a r : ℕ) → (a + 1) * r ≡ a * r + r
suc_times a r = grind arith

times_mono : (a b r : ℕ) → a ≤ b → a * r ≤ b * r
times_mono a b r h = grind arith

-- The times of the calls, and the levels that they leave, are numbers of up to 16 digits: times before the
-- year 2286, and levels below ten million tokens.
abbrev pub AreShort : Trace → Ledger → Type 0
AreShort [] l = Unit {0}
AreShort ((now, req) ∷ t) l =
    (now < 10 ^ 16)
    × ((pos_part (level_left req now l) + neg_part (level_left req now l) < 10 ^ 16)
        × AreShort t (admit req now l).1)

-- What the texts of a time and of a level may add, of which 14 digits are left.
abbrev pub rounding : ℕ → ℕ
rounding r_tok = 50 * r_tok + 50

-- What is drawn from a level on: no more than the level, what the refill earns, what one charge goes above
-- the capacity, and what the texts add.
Within : ℕ → Rates → ℤ → ℕ → ℕ → ℕ → ℕ → Type 0
Within m r level upd last calls amount =
    (amount ≡ 0)
    ⊎ (amount * nano + neg_part level + upd * r.r_tok
        ≤ pos_part level + last * r.r_tok + (m - r.c_burst) * nano + calls * rounding r.r_tok)

-- What is read back is what the call left, but for the rounding.
Within-as_stored :
    (m now last calls amount : ℕ) (r : Rates) (level : ℤ)
    → now < 10 ^ 16
    → pos_part level + neg_part level < 10 ^ 16
    → Within m r (stored_level level) (as_stored now) last calls amount
    → Within m r level now last (calls + 1) amount
unfolding Within
Within-as_stored m now last calls amount r level short low (inl e) = inl e
Within-as_stored m now last calls amount r level short low (inr w) =
    let late = times_mono now (as_stored now + 50) r.r_tok (stored_near now short).1 in
    let near = stored_level_near level low in
    let one_more = suc_times calls (rounding r.r_tok) in
    let spread = add_times (as_stored now) r.r_tok in
    inr (omega (arith, w, late, near, one_more, spread))

Within-add :
    (m first rest upd now last calls : ℕ) (r : Rates) (before level : ℤ)
    → now ≤ last
    → pos_part level + neg_part before + upd * r.r_tok
      ≤ neg_part level + pos_part before + now * r.r_tok
    → (first ≡ 0) ⊎ (first * nano + neg_part level ≤ pos_part level + (m - r.c_burst) * nano)
    → Within m r (level -ℤ pos (first * nano)) now last calls rest
    → Within m r before upd last calls (first + rest)
unfolding Within
Within-add m first rest upd now last calls r before level ordered grown (inl e) (inl f) =
    inl (omega arith)
Within-add m first rest upd now last calls r before level ordered grown (inr c) (inl f) =
    inr (omega (arith, times_mono now last r.r_tok ordered))
Within-add m first rest upd now last calls r before level ordered grown covered (inr w) =
    inr (omega (arith, -ℤ_parts level (pos (first * nano))))

drawn-Within :
    (m start : ℕ) (t : Trace) (l : Ledger) (cfg : Config) (level : ℤ) (upd : ℕ)
    → l.config ≡ cfg
    → l.bucket ≡ at_level level upd
    → Ordered start t
    → ChargesAtMost m t
    → AreShort t l
    → Within m (rates cfg) level upd (last_time start t) (count_calls t) (drawn t l)
unfolding drawn Within draw level_left
drawn-Within m start [] l cfg level upd same bucket ordered charges short = inl refl
drawn-Within m start ((now, req) ∷ t) l cfg level upd same bucket ordered charges short =
    Within-add m (draw req now l) (drawn t next) upd now (last_time now t) (count_calls t + 1)
      (rates cfg) level (level_of req now l) (start-le-last_time now t ordered.1) grown paid
      (Within-as_stored m now (last_time now t) (count_calls t) (drawn t next) (rates cfg)
        (level_left req now l) short.0 short.1.0
        (drawn-Within m now t next cfg (stored_level (level_left req now l)) (as_stored now)
          (config-admit req now l ∙ same) (bucket-admit req now l) ordered.1 charges.1 short.1.1))
  where
    next : Ledger
    next = (admit req now l).1

    grown :
        pos_part (level_of req now l) + neg_part level + upd * (rates cfg).r_tok
        ≤ neg_part (level_of req now l) + pos_part level + now * (rates cfg).r_tok
    grown = rw (level_of-eq req now l same bucket) (refill_growth now _ _ upd level)

    paid :
        (draw req now l ≡ 0)
        ⊎ (draw req now l * nano + neg_part (level_of req now l)
            ≤ pos_part (level_of req now l) + (m - (rates cfg).c_burst) * nano)
    paid = rw (← same) (draw_covered req now l m charges.0)

-- The tokens that any calls are admitted with over any stretch of time, whoever makes them and from
-- whatever ledger, are at most the bucket's capacity, or the largest charge where that is above it,
-- what the refill earns in that time, and for each call what it earns in 50 microseconds and 50 billionths of
-- a token, as the script writes times and levels with 14 digits. The server's time must not go back, no usage
-- is settled meanwhile, and the times and the levels that the calls leave have no more than 16 digits. (In
-- billionths of a token: microseconds by thousandths of a token per second.)
pub arrival_rate :
    (m now : ℕ) (req : Request) (t : Trace) (l : Ledger)
    → Ordered now t
    → ChargesAtMost m ((now, req) ∷ t)
    → AreShort ((now, req) ∷ t) l
    → drawn ((now, req) ∷ t) l * nano + now * (rates l.config).r_tok
      ≤ max m (rates l.config).c_burst * nano
        + last_time now t * (rates l.config).r_tok
        + (count_calls t + 1) * rounding (rates l.config).r_tok
unfolding drawn draw Within level_left
arrival_rate m now req t l ordered charges short = elim total [
  | inl e ↦ omega (arith, e, times_mono now (last_time now t) (rates l.config).r_tok last)
  | inr w ↦ omega (arith, w, level_of-le req now l)
]
  where
    last : now ≤ last_time now t
    last = start-le-last_time now t ordered

    -- From the level that the first call found.
    total :
        Within m
          (rates l.config)
          (level_of req now l)
          now
          (last_time now t)
          (count_calls t + 1)
          (draw req now l + drawn t (admit req now l).1)
    total =
        Within-add m (draw req now l) (drawn t (admit req now l).1) now now (last_time now t)
          (count_calls t + 1) (rates l.config) (level_of req now l) (level_of req now l) last
          (omega arith) (draw_covered req now l m charges.0)
          (Within-as_stored m now (last_time now t) (count_calls t) _ (rates l.config)
            (level_left req now l) short.0 short.1.0
            (drawn-Within m now t (admit req now l).1 l.config (stored_level (level_left req now l))
              (as_stored now) (config-admit req now l) (bucket-admit req now l) ordered charges.1
              short.1.1))
