-- ===== src/Compaction/Stages/Size.antt =====
-- swebench_eval/harnesses/compaction.py: what `compact_messages` makes of the size.
use agent_evals.Prelude.{
  ℕ, ◌+◌, ◌-◌, ◌≤◌, ◌<◌, ◌≡◌, ◌⊎◌, inl, inr, refl, ◌∙◌, ap, true, none, some, List, [], ◌∷◌, ◌++◌,
  ltb, arith, Bool-cases, Option-cases, length, take, drop, length-append, length-take, min,
}
use agent_evals.Compaction.Message.{
  Message, is_tool, body, content_len, message_chars, messages_chars, stub_suffix,
}
use agent_evals.Compaction.Tail.Bounds.{tail_start-IsCut}
use agent_evals.Compaction.Stages.{
  Options, Stats, ok, cut, is_stubbed, stub, stub_all, is_capped, cap_one, turn_groups, flat,
  drop_groups, stage2, stage3, shrink, start_of, middle_of, parts_of, out_of, stats_of,
  unchanged_stats, checked, compact_messages,
}
use agent_evals.Compaction.Stages.Shape.{shrink-Shrunk, parts_join}

messages_chars-append :
    (xs ys : List Message) → messages_chars (xs ++ ys) ≡ messages_chars xs + messages_chars ys
unfolding messages_chars
messages_chars-append [] ys = omega arith
messages_chars-append (x ∷ xs) ys = omega (arith, messages_chars-append xs ys)

length-cut :
    (n elided : ℕ) (m : Message)
    → content_len (cut n elided m) ≡ min n (content_len m) + length (stub_suffix elided)
unfolding cut
length-cut n elided m =
    length-append (take n (body m)) (stub_suffix elided)
    ∙ ap (λ k. k + length (stub_suffix elided)) (length-take n (body m))

is_stubbed_small :
    (keep : ℕ) (m : Message)
    → is_stubbed keep m ≡ true
    → keep + length (stub_suffix (content_len m - keep)) < content_len m
unfolding is_stubbed
is_stubbed_small keep m e = ground arith

chars-cut-le :
    (n elided : ℕ) (m : Message)
    → content_len (cut n elided m) ≤ content_len m
    → message_chars (cut n elided m) ≤ message_chars m
unfolding cut
chars-cut-le n elided m h = omega arith

message_chars-stub : (keep : ℕ) (m : Message) → message_chars (stub keep m) ≤ message_chars m
unfolding stub
message_chars-stub keep m = elim (Bool-cases (is_stubbed keep m)) [
  | inl e ↦
      rw (e, stub)
        (chars-cut-le keep (content_len m - keep) m
          (omega (arith, length-cut keep (content_len m - keep) m, is_stubbed_small keep m e)))
  | inr e ↦ rw (e, stub) (omega arith)
]

messages_chars-stub_all :
    (keep : ℕ) (ms : List Message) → messages_chars (stub_all keep ms) ≤ messages_chars ms
unfolding messages_chars
messages_chars-stub_all keep [] = omega arith
messages_chars-stub_all keep (m ∷ ms) =
    omega (arith, message_chars-stub keep m, messages_chars-stub_all keep ms)

drop_groups_fits :
    (head tail : List Message) (target : ℕ) (gs : List (List Message)) (count : ℕ)
    → let d = drop_groups head tail target gs count in
      (messages_chars (head ++ (flat d.groups ++ tail)) ≤ target) ⊎ (d.groups ≡ [])
unfolding drop_groups
drop_groups_fits head tail target [] count = inr refl
drop_groups_fits head tail target (g ∷ gs) count =
    elim (Bool-cases (ltb target (messages_chars (head ++ (flat (g ∷ gs) ++ tail))))) [
      | inl e ↦ rw (e, drop_groups) (drop_groups_fits head tail target gs (count + 1))
      | inr e ↦ rw (e, drop_groups) (inl (ground arith))
    ]

stage2_fits :
    (head tail : List Message) (target : ℕ) (pruned : List Message)
    → let p = stage2 head tail target pruned in
      (messages_chars (head ++ (p.middle ++ p.tail)) ≤ target)
      ⊎ ((p.exhausted ≡ true) × (p.middle ≡ []))
unfolding stage2 flat
stage2_fits head tail target pruned =
    elim (drop_groups_fits head tail target (turn_groups pruned) 0) [
      | inl fits ↦ inl fits
      | inr gone ↦ inr (rw (gone, stage2) refl, ap flat gone)
    ]

module _ (o : Options) (no_cap : o.tail_hard_cap_chars ≡ none) where
  tail-shrink : (head pruned tail : List Message) → (shrink o head pruned tail).tail ≡ tail
  unfolding shrink stage2 stage3
  tail-shrink head pruned tail = elim (Option-cases o.target_chars) [
    | inl e ↦ rw (e, shrink) refl
    | inr (target, e) ↦ rw (e, shrink, no_cap, stage3) refl
  ]

  shrink_fits :
      (target : ℕ) (head pruned tail : List Message)
      → o.target_chars ≡ some target
      → let p = shrink o head pruned tail in
        (messages_chars (head ++ (p.middle ++ p.tail)) ≤ target)
        ⊎ ((p.exhausted ≡ true) × (p.middle ≡ []))
  unfolding shrink stage3
  shrink_fits target head pruned tail e =
      rw (e, shrink, no_cap, stage3) (stage2_fits head tail target pruned)

  chars-shrink :
      (head pruned tail : List Message)
      → messages_chars ((shrink o head pruned tail).middle ++ (shrink o head pruned tail).tail)
        ≤ messages_chars pruned + messages_chars tail
  chars-shrink head pruned tail =
      let p = shrink o head pruned tail in
      let s = shrink-Shrunk o head pruned tail in
      rw (messages_chars-append p.middle p.tail, tail-shrink head pruned tail)
        (omega (arith, ap messages_chars s.split, messages_chars-append s.dropped p.middle))

  long_out_of :
      (ms : List Message)
      → o.keep_head + o.keep_tail < length ms
      → messages_chars (out_of o ms) ≤ messages_chars ms
  unfolding out_of parts_of start_of
  long_out_of ms long =
      let c = tail_start-IsCut o.keep_head o.keep_tail o.keep_tail_chars ms long in
      let head = take o.keep_head ms in
      let tail = drop (start_of o ms).0 ms in
      let pruned = stub_all o.keep_tool_head_chars (middle_of o ms) in
      let p = shrink o head pruned tail in
      omega (
        arith,
        messages_chars-append head (p.middle ++ p.tail),
        chars-shrink head pruned tail,
        messages_chars-stub_all o.keep_tool_head_chars (middle_of o ms),
        ap messages_chars (parts_join o ms c),
        messages_chars-append head (middle_of o ms ++ tail),
        messages_chars-append (middle_of o ms) tail,
      )

module _ (o : Options) (ms out : List Message) (stats : Stats)
    (returned : compact_messages o ms ≡ ok (out, stats)) where
  -- What `compact_messages` returns: the list as it was, if it is short, or what the stages leave.
  pub returned_cases :
      ((length ms ≤ o.keep_head + o.keep_tail) × (out ≡ ms) × (stats ≡ unchanged_stats ms))
      ⊎ ((o.keep_head + o.keep_tail < length ms) × (out ≡ out_of o ms) × (stats ≡ stats_of o ms))
  unfolding compact_messages checked
  returned_cases = ground arith

  -- With no hard cap on the tail, the list that compaction returns is never larger than the one it was
  -- given, and the sizes in its statistics are those of the two lists.
  pub compact-size :
      o.tail_hard_cap_chars ≡ none
      → (messages_chars out ≤ messages_chars ms)
        × (stats.before_chars ≡ messages_chars ms)
        × (stats.after_chars ≡ messages_chars out)
  unfolding stats_of unchanged_stats
  compact-size no_cap = elim returned_cases [
    | inl (short, same, s) ↦ rw (same, s) (omega arith, refl, refl)
    | inr (long, same, s) ↦ rw (same, s) (long_out_of o no_cap ms long, refl, refl)
  ]

  -- With a target and no hard cap, a list that is not short is brought under the target, or every
  -- group between the head and the tail is gone and the statistics say so.
  pub compact-target :
      (target : ℕ)
      → o.tail_hard_cap_chars ≡ none
      → o.target_chars ≡ some target
      → o.keep_head + o.keep_tail < length ms
      → (messages_chars out ≤ target)
        ⊎ ((stats.exhausted ≡ true) × (out ≡ take o.keep_head ms ++ drop (start_of o ms).0 ms))
  unfolding stats_of out_of parts_of
  compact-target target no_cap aimed long = elim returned_cases [
    | inl (short, same, s) ↦ absurd (omega arith)
    | inr (long', same, s) ↦
        let head = take o.keep_head ms in
        let tail = drop (start_of o ms).0 ms in
        let pruned = stub_all o.keep_tool_head_chars (middle_of o ms) in
        elim (shrink_fits o no_cap target head pruned tail aimed) [
          | inl fits ↦ inl (rw same fits)
          | inr (spent, gone) ↦ inr (
            ap (λ (t : Stats). t.exhausted) s ∙ spent,
            same
                ∙ ap (λ xs. head ++ (xs ++ (shrink o head pruned tail).tail)) gone
                ∙ ap (λ xs. head ++ xs) (tail-shrink o no_cap head pruned tail),
          )
        ]
  ]

-- Stage 3 has no such guard: a tool result of the tail that is above the hard cap by less than the
-- length of the suffix gets longer.
pub cap_one_grows :
    (cap : ℕ) (m : Message)
    → is_tool m ≡ true
    → cap < content_len m
    → content_len m < cap + length (stub_suffix (content_len m - cap))
    → content_len m < content_len (cap_one cap m)
unfolding cap_one is_capped
cap_one_grows cap m is_result above near =
    let over : is_capped cap m ≡ true = ground arith in
    rw over (omega (arith, length-cut cap (content_len m - cap) m))
