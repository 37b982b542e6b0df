-- ===== src/Compaction/Stages/Shape.antt =====
-- swebench_eval/harnesses/compaction.py: what stages 2 and 3 make of the pruned middle and the tail.
use agent_evals.Prelude.{
  ℕ, ◌≡◌, ◌⊎◌, inl, inr, refl, sym, ◌∙◌, ap, true, List, [], ◌++◌, ltb, Bool-cases, Option-cases,
  take, drop, take-append-drop, slice-append-drop,
}
use agent_evals.Compaction.Message.{Message, messages_chars}
use agent_evals.Compaction.Tail.Bounds.{IsCut}
use agent_evals.Compaction.Stages.{
  Options, Parts, turn_groups, flat, cap_all, stage2, stage3, shrink, start_of, middle_of,
}
use agent_evals.Compaction.Stages.Links.{is_fresh}
use agent_evals.Compaction.Stages.Groups.{
  flat-turn_groups, later_turns-turn_groups, drop_groups-LeavesTurns,
}

-- The middle is the end of what it was, all of it or from an assistant message on; the tail is what it
-- was, or has its oversized tool results cut.
pub record Shrunk (pruned tail : List Message) (p : Parts) : Type 0 where
  pub dropped : List Message
  pub split : pruned ≡ dropped ++ p.middle
  pub whole : (p.middle ≡ pruned) ⊎ (is_fresh p.middle ≡ true)
  pub tail_cut : (p.tail ≡ tail) ⊎ ((cap : ℕ) × (p.tail ≡ cap_all cap tail))

stage3-middle :
    (o : Options) (head : List Message) (target : ℕ) (p : Parts)
    → ((stage3 o head target p).middle ≡ p.middle)
      × (((stage3 o head target p).tail ≡ p.tail)
          ⊎ ((cap : ℕ) × ((stage3 o head target p).tail ≡ cap_all cap p.tail)))
unfolding stage3
stage3-middle o head target p = elim (Option-cases o.tail_hard_cap_chars) [
  | inl e ↦ rw (e, stage3) (refl, inl refl)
  | inr (cap, e) ↦ elim (Bool-cases (ltb target (messages_chars (head ++ (p.middle ++ p.tail))))) [
    | inl f ↦ rw (e, f, stage3) (refl, inr (cap, refl))
    | inr f ↦ rw (e, f, stage3) (refl, inl refl)
  ]
]

stage2-Shrunk :
    (head tail : List Message) (target : ℕ) (pruned : List Message)
    → Shrunk pruned tail (stage2 head tail target pruned)
unfolding stage2
stage2-Shrunk head tail target pruned =
    let r =
      drop_groups-LeavesTurns head tail target (turn_groups pruned) 0
        (later_turns-turn_groups pruned) in
    record {
      dropped = r.dropped;
      split = sym (flat-turn_groups pruned) ∙ r.split;
      whole = elim r.whole [
        | inl same ↦ inl (ap flat same ∙ flat-turn_groups pruned)
        | inr fresh ↦ inr fresh
      ];
      tail_cut = inl refl;
    }

Shrunk-stage3 :
    (o : Options) (head pruned tail : List Message) (target : ℕ) (p : Parts)
    → p.tail ≡ tail
    → Shrunk pruned tail p
    → Shrunk pruned tail (stage3 o head target p)
Shrunk-stage3 o head pruned tail target p same s =
    let (middle, cut) = stage3-middle o head target p in
    record {
      dropped = s.dropped;
      split = rw middle s.split;
      whole = rw middle s.whole;
      tail_cut = rw (← same) cut;
    }

tail-stage2 :
    (head tail : List Message) (target : ℕ) (pruned : List Message)
    → (stage2 head tail target pruned).tail ≡ tail
unfolding stage2
tail-stage2 head tail target pruned = refl

pub shrink-Shrunk :
    (o : Options) (head pruned tail : List Message) → Shrunk pruned tail (shrink o head pruned tail)
unfolding shrink
shrink-Shrunk o head pruned tail = elim (Option-cases o.target_chars) [
  | inl e ↦
      rw (e, shrink) (record { dropped = []; split = refl; whole = inl refl; tail_cut = inl refl })
  | inr (target, e) ↦
      rw (e, shrink)
        (Shrunk-stage3 o head pruned tail target _ (tail-stage2 head tail target pruned)
          (stage2-Shrunk head tail target pruned))
]

-- The head, the middle and the tail are the list.
pub parts_join :
    (o : Options) (ms : List Message)
    → IsCut o.keep_head ms (start_of o ms).0
    → take o.keep_head ms ++ (middle_of o ms ++ drop (start_of o ms).0 ms) ≡ ms
unfolding middle_of
parts_join o ms c =
    ap (λ xs. take o.keep_head ms ++ xs)
      (slice-append-drop o.keep_head (start_of o ms).0 ms c.after_head)
    ∙ take-append-drop o.keep_head ms
