-- ===== src/Compaction/Stages/Groups.antt =====
-- swebench_eval/harnesses/compaction.py: turn groups, and what dropping the oldest ones leaves.
use agent_evals.Prelude.{
  ℕ, ◌+◌, ◌≡◌, ◌⊎◌, inl, inr, refl, sym, ◌∙◌, ap, Bool, true, false, ◌&&◌, List, [], ◌∷◌, ◌++◌,
  append_assoc, ltb, arith, Bool-cases,
}
use agent_evals.Compaction.Message.{Message, is_assistant, messages_chars}
use agent_evals.Compaction.Stages.{groups_from, turn_groups, flat, drop_groups}
use agent_evals.Compaction.Stages.Links.{is_fresh}

flat-groups_from : (group ms : List Message) → flat (groups_from group ms) ≡ group ++ ms
unfolding groups_from flat
flat-groups_from group [] = refl
flat-groups_from group (m ∷ ms) = elim (Bool-cases (is_assistant m)) [
  | inl e ↦ rw (e, groups_from) (ap (λ xs. group ++ xs) (flat-groups_from (m ∷ []) ms))
  | inr e ↦
      rw (e, groups_from) (flat-groups_from (group ++ m ∷ []) ms ∙ append_assoc group (m ∷ []) ms)
]

-- The groups hold the messages, each once and in order.
pub flat-turn_groups : (ms : List Message) → flat (turn_groups ms) ≡ ms
unfolding turn_groups flat
flat-turn_groups [] = refl
flat-turn_groups (m ∷ ms) = flat-groups_from (m ∷ []) ms

abbrev starts_turn : List Message → Bool
starts_turn [] = false
starts_turn (m ∷ ms) = is_assistant m

-- Every group starts with an assistant message.
abbrev pub all_turns : List (List Message) → Bool
all_turns [] = true
all_turns (g ∷ gs) = starts_turn g && all_turns gs

-- Every group but the first does.
abbrev pub later_turns : List (List Message) → Bool
later_turns [] = true
later_turns (g ∷ gs) = all_turns gs

starts_turn-append :
    (g : List Message) (m : Message) → starts_turn g ≡ true → starts_turn (g ++ m ∷ []) ≡ true
starts_turn-append [] m h = cc
starts_turn-append (x ∷ g) m h = h

all_turns-groups_from :
    (g ms : List Message) → starts_turn g ≡ true → all_turns (groups_from g ms) ≡ true
unfolding groups_from
all_turns-groups_from g [] h = ground arith
all_turns-groups_from g (m ∷ ms) h = elim (Bool-cases (is_assistant m)) [
  | inl e ↦ rw (e, groups_from) (ground (arith, all_turns-groups_from (m ∷ []) ms e))
  | inr e ↦ rw (e, groups_from) (all_turns-groups_from (g ++ m ∷ []) ms (starts_turn-append g m h))
]

later_turns-groups_from : (g ms : List Message) → later_turns (groups_from g ms) ≡ true
unfolding groups_from
later_turns-groups_from g [] = refl
later_turns-groups_from g (m ∷ ms) = elim (Bool-cases (is_assistant m)) [
  | inl e ↦ rw (e, groups_from) (all_turns-groups_from (m ∷ []) ms e)
  | inr e ↦ rw (e, groups_from) (later_turns-groups_from (g ++ m ∷ []) ms)
]

pub later_turns-turn_groups : (ms : List Message) → later_turns (turn_groups ms) ≡ true
unfolding turn_groups
later_turns-turn_groups [] = refl
later_turns-turn_groups (m ∷ ms) = later_turns-groups_from (m ∷ []) ms

is_fresh-flat : (gs : List (List Message)) → all_turns gs ≡ true → is_fresh (flat gs) ≡ true
unfolding flat
is_fresh-flat [] h = refl
is_fresh-flat ([] ∷ gs) h = cc
is_fresh-flat ((m ∷ g) ∷ gs) h = ground arith

-- What is left is a list of whole groups from one on: nothing was dropped, or it begins with an
-- assistant message.
pub record LeavesTurns (gs : List (List Message)) (left : List (List Message)) : Type 0 where
  pub dropped : List Message
  pub split : flat gs ≡ dropped ++ flat left
  pub whole : (left ≡ gs) ⊎ (is_fresh (flat left) ≡ true)

all_later : (gs : List (List Message)) → all_turns gs ≡ true → later_turns gs ≡ true
all_later [] h = refl
all_later (g ∷ gs) h = ground arith

pub drop_groups-LeavesTurns :
    (head tail : List Message) (target : ℕ) (gs : List (List Message)) (count : ℕ)
    → later_turns gs ≡ true
    → LeavesTurns gs (drop_groups head tail target gs count).groups
unfolding drop_groups flat
drop_groups-LeavesTurns head tail target [] count h = record {
  dropped = [];
  split = refl;
  whole = inl refl;
}
drop_groups-LeavesTurns head tail target (g ∷ gs) count h =
    elim (Bool-cases (ltb target (messages_chars (head ++ (flat (g ∷ gs) ++ tail))))) [
      | inr e ↦ rw (e, drop_groups) (record { dropped = []; split = refl; whole = inl refl })
      | inl e ↦
          let r = drop_groups-LeavesTurns head tail target gs (count + 1) (all_later gs h) in
          rw (e, drop_groups)
            (record {
              dropped = g ++ r.dropped;
              split = ap (λ xs. g ++ xs) r.split ∙ sym (append_assoc g r.dropped _);
              whole = inr (elim r.whole [
                | inl same ↦ ap (λ xs. is_fresh (flat xs)) same ∙ is_fresh-flat gs h
                | inr fresh ↦ fresh
              ]);
            })
    ]
