-- ===== src/Compaction/Stages/Orphans.antt =====
-- swebench_eval/harnesses/compaction.py: `compact_messages` never orphans a tool result.
use agent_evals.Prelude.{
  ℕ, zero, suc, ◌+◌, ◌-◌, ◌<◌, ◌≡◌, ◌⊎◌, inl, inr, refl, sym, ◌∙◌, ap, subst, String, true, false,
  not, List, [], ◌∷◌, ◌++◌, leb, arith, Bool-cases, length, take, drop,
}
use agent_evals.Compaction.Message.{Message, find_orphans}
use agent_evals.Compaction.Tail.{is_tool_at}
use agent_evals.Compaction.Tail.Bounds.{IsCut, tail_start-IsCut}
use agent_evals.Compaction.Stages.{
  Options, Stats, Parts, ok, cut, stub, stub_all, cap_one, start_of, middle_of, parts_of, out_of,
  stats_of, unchanged_stats, checked, compact_messages,
}
use agent_evals.Compaction.Stages.Links.{
  linked, last_ids, is_fresh, linked-append, linked_fresh, KeepsLinks, linked-map, last_ids-map,
  linked_no_orphans,
}
use agent_evals.Compaction.Stages.Shape.{Shrunk, shrink-Shrunk, parts_join}

stub-KeepsLinks : (keep : ℕ) → KeepsLinks (stub keep)
unfolding stub cut
stub-KeepsLinks keep = record {
  same_role = λ m. ground arith;
  same_calls = λ m. ground arith;
  same_answer = λ m. ground arith;
}

cap_one-KeepsLinks : (cap : ℕ) → KeepsLinks (cap_one cap)
unfolding cap_one cut
cap_one-KeepsLinks cap = record {
  same_role = λ m. ground arith;
  same_calls = λ m. ground arith;
  same_answer = λ m. ground arith;
}

append_nil_right : {A : Type 0} (xs ys : List A) → [] ≡ xs ++ ys → ys ≡ []
append_nil_right [] ys e = sym e
append_nil_right (x ∷ xs) ys e = cc

-- What stages 2 and 3 leave of a linked middle and tail is linked: `ids` are the calls before the
-- middle, and either there is no middle or the tail is fresh.
linked-Shrunk :
    (ids : List String) (pruned tail : List Message) (p : Parts)
    → Shrunk pruned tail p
    → linked ids pruned ≡ true
    → linked (last_ids ids pruned) tail ≡ true
    → (pruned ≡ []) ⊎ (is_fresh tail ≡ true)
    → linked ids (p.middle ++ p.tail) ≡ true
linked-Shrunk ids pruned tail p s m t boundary =
    linked-append ids p.middle p.tail ∙ ground (arith, middle, after)
  where
    middle : linked ids p.middle ≡ true
    middle = elim s.whole [
      | inl same ↦ rw same m
      | inr fresh ↦
          linked_fresh ids (last_ids ids s.dropped) p.middle fresh
          ∙ ground (arith, linked-append ids s.dropped p.middle, rw s.split at m)
    ]

    uncut : linked (last_ids ids p.middle) tail ≡ true
    uncut = elim boundary [
      | inl none_left ↦
          let gone : p.middle ≡ [] =
            append_nil_right s.dropped p.middle (sym none_left ∙ s.split) in
          subst (λ (xs : List Message). linked (last_ids ids xs) tail ≡ true) (none_left ∙ sym gone)
            t
      | inr fresh ↦ linked_fresh _ (last_ids ids pruned) tail fresh ∙ t
    ]

    after : linked (last_ids ids p.middle) p.tail ≡ true
    after = elim s.tail_cut [
      | inl same ↦ rw same uncut
      | inr (cap, same) ↦ rw same (linked-map (cap_one cap) (cap_one-KeepsLinks cap) _ tail ∙ uncut)
    ]

minus_self : (n : ℕ) → n - n ≡ 0
minus_self n = omega arith

fresh_at : (i : ℕ) (ms : List Message) → is_tool_at ms i ≡ false → is_fresh (drop i ms) ≡ true
fresh_at zero [] h = refl
fresh_at zero (m ∷ ms) h = ap not h
fresh_at (suc i) [] h = refl
fresh_at (suc i) (m ∷ ms) h = fresh_at i ms h

module _ (o : Options) (ms : List Message) (long : o.keep_head + o.keep_tail < length ms)
    (whole : linked [] ms ≡ true) where
  start_of-IsCut : IsCut o.keep_head ms (start_of o ms).0
  unfolding start_of
  start_of-IsCut = tail_start-IsCut o.keep_head o.keep_tail o.keep_tail_chars ms long

  abbrev head_ids : List String
  head_ids = last_ids [] (take o.keep_head ms)

  abbrev tail_of : List Message
  tail_of = drop (start_of o ms).0 ms

  split_linked :
      (linked [] (take o.keep_head ms) ≡ true)
      × (linked head_ids (middle_of o ms) ≡ true)
      × (linked (last_ids head_ids (middle_of o ms)) tail_of ≡ true)
  split_linked = ground (
    arith,
    subst (λ xs. linked [] xs ≡ true) (sym (parts_join o ms start_of-IsCut)) whole,
    linked-append [] (take o.keep_head ms) (middle_of o ms ++ tail_of),
    linked-append head_ids (middle_of o ms) tail_of,
  )

  boundary : (stub_all o.keep_tool_head_chars (middle_of o ms) ≡ []) ⊎ (is_fresh tail_of ≡ true)
  unfolding middle_of
  boundary = elim start_of-IsCut.at_group [
    | inl at_head ↦ inl (rw (at_head, minus_self o.keep_head))
    | inr no_tool ↦ inr (fresh_at (start_of o ms).0 ms no_tool)
  ]

  out_linked : linked [] (out_of o ms) ≡ true
  unfolding out_of parts_of
  out_linked =
      let pruned = stub_all o.keep_tool_head_chars (middle_of o ms) in
      let k = stub-KeepsLinks o.keep_tool_head_chars in
      let f = stub o.keep_tool_head_chars in
      let rest =
        linked-Shrunk head_ids pruned tail_of _
          (shrink-Shrunk o (take o.keep_head ms) pruned tail_of)
          (linked-map f k head_ids (middle_of o ms) ∙ split_linked.1)
          (rw (last_ids-map f k head_ids (middle_of o ms)) split_linked.2) boundary in
      linked-append [] (take o.keep_head ms) _ ∙ ground (arith, split_linked, rest)

-- From a linked list, in which every tool result answers a call of the message before its run, and
-- with a tail of at least one message, compaction always returns: its own check for orphans never
-- raises. The list that it returns is linked again and has no orphaned tool result, whatever the
-- limits, so it can be compacted again.
pub compact-linked :
    (o : Options) (ms : List Message)
    → linked [] ms ≡ true
    → 0 < o.keep_tail
    → (out : List Message) × (stats : Stats) × (compact_messages o ms ≡ ok (out, stats))
      × (linked [] out ≡ true)
      × ((find_orphans out).0 ≡ [])
unfolding compact_messages checked
compact-linked o ms whole some_tail =
    elim (Bool-cases (leb (length ms) (o.keep_head + o.keep_tail))) [
      | inl short ↦ (ms, unchanged_stats ms, rw short refl, whole, linked_no_orphans ms whole)
      | inr long ↦
          let l = out_linked o ms (ground arith) whole in
          let clean = linked_no_orphans (out_of o ms) l in
          (out_of o ms, stats_of o ms, ground arith, l, clean)
    ]
