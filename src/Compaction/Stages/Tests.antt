-- ===== src/Compaction/Stages/Tests.antt =====
-- `compact_messages` of swebench_eval/harnesses/compaction.py at concrete inputs.
use agent_evals.Prelude.Text.{Text}
use agent_evals.Prelude.{
  ℕ, zero, suc, ◌≤◌, ◌≡◌, ◌⊎◌, refl, true, none, some, List, [], ◌∷◌, ◌++◌, length, drop, take,
  ◌=s◌, arith, String,
}
use agent_evals.Prelude.Decimal.{decimal}
use agent_evals.Compaction.Message.{
  Message, Role, messages_chars, called, answered, minus, find_orphans, stub_suffix,
}
use agent_evals.Compaction.Tail.{snap_back, tail_start}
use agent_evals.Compaction.Stages.{
  Options, ok, cut, is_stubbed, stub, count_of, groups_from, turn_groups, flat, drop_groups, stage2,
  stage3, shrink, checked, start_of, middle_of, parts_of, out_of, stats_of, compact_messages,
}
use agent_evals.Compaction.Stages.Links.{linked, all_in}
use agent_evals.Compaction.Stages.Orphans.{compact-linked}
use agent_evals.Compaction.Stages.Size.{compact-target}

abbrev spaces : ℕ → Text
spaces zero = []
spaces (suc n) = 32 ∷ spaces n

abbrev says : Role → ℕ → Message
says role n = record {
  role = role;
  content = some (spaces n);
  reasoning_content = none;
  tool_calls = [];
  tool_call_id = none;
  extra = none;
}

abbrev calls : String → Message
calls id = record (says Role.assistant 10) {
  tool_calls = record { id = some id; arguments = none } ∷ [];
}

abbrev answers : String → ℕ → Message
answers id n = record (says Role.tool n) { tool_call_id = some id }

-- A task, two turns with a long result each, and a last turn.
abbrev chat : List Message
chat =
    says Role.system 5
    ∷ says Role.user 5
    ∷ calls "a"
    ∷ answers "a" 300
    ∷ calls "b"
    ∷ answers "b" 200
    ∷ calls "c"
    ∷ answers "c" 8
    ∷ []

abbrev options : Options
options = record {
  keep_head = 2;
  keep_tail = 1;
  keep_tail_chars = none;
  keep_tool_head_chars = 20;
  target_chars = some 250;
  tail_hard_cap_chars = none;
  min_gain_percent = 10;
}

suffix_length : length (stub_suffix 1234) ≡ 138
unfolding stub_suffix decimal
suffix_length = refl

chat_linked : linked [] chat ≡ true
unfolding linked all_in ◌=s◌
chat_linked = refl

-- The older turn is dropped; the other result is cut.
compacted : compact_messages options chat ≡ ok (out_of options chat, stats_of options chat)
unfolding compact_messages out_of parts_of middle_of start_of tail_start snap_back shrink stage2
    stage3 drop_groups turn_groups groups_from flat stub is_stubbed cut stub_suffix decimal
    messages_chars checked find_orphans minus answered called ◌=s◌
compacted = refl

compacted_stats :
    ((stats_of options chat).stubbed ≡ 2)
    × ((stats_of options chat).dropped_groups ≡ 1)
    × ((stats_of options chat).after_chars ≡ 195)
unfolding stats_of count_of out_of parts_of middle_of start_of tail_start snap_back shrink stage2
    stage3 drop_groups turn_groups groups_from flat stub is_stubbed cut stub_suffix decimal
    messages_chars
compacted_stats = (refl, refl, refl)

compact-linked_example : linked [] (compact-linked options chat chat_linked (omega arith)).0 ≡ true
compact-linked_example = (compact-linked options chat chat_linked (omega arith)).3

compact-target_example :
    (messages_chars (out_of options chat) ≤ 250)
    ⊎ (((stats_of options chat).exhausted ≡ true)
        × (out_of options chat ≡ take 2 chat ++ drop (start_of options chat).0 chat))
compact-target_example = compact-target options chat _ _ compacted 250 refl refl (omega arith)
