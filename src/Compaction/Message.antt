-- ===== src/Compaction/Message.antt =====
-- swebench_eval/harnesses/compaction.py: messages, their size, and orphaned tool results.
-- A text is its code points. A message's `content` and `reasoning_content` are texts or absent.
use agent_evals.Prelude.Decimal.{decimal}
use agent_evals.Prelude.Text.{Text, codes}
use agent_evals.Prelude.{
  ℕ, ◌+◌, String, Bool, true, false, Option, none, some, List, [], ◌∷◌, ◌++◌, ◌=s◌, if◌then◌else◌,
  length, or_default, any,
}

pub data Role : Type 0 where
  system user assistant tool : Role

pub record ToolCall : Type 0 where
  pub id : Option String
  pub arguments : Option Text

-- The dictionary `extra` that mini messages carry, with its mark.
pub record Extra : Type 0 where
  pub compacted : Bool
  pub items : List (String × String)

pub record Message : Type 0 where
  pub role : Role
  pub content : Option Text
  pub reasoning_content : Option Text
  pub tool_calls : List ToolCall
  pub tool_call_id : Option String
  pub extra : Option Extra

abbrev pub is_tool : Message → Bool
is_tool m = elim m.role [ tool ↦ true | _ ↦ false ]

abbrev pub is_assistant : Message → Bool
is_assistant m = elim m.role [ assistant ↦ true | _ ↦ false ]

-- `str(m.get("content") or "")`.
abbrev pub body : Message → Text
body m = or_default m.content []

-- `_content_len`.
abbrev pub content_len : Message → ℕ
content_len m = length (body m)

abbrev pub arguments_chars : List ToolCall → ℕ
arguments_chars [] = 0
arguments_chars (c ∷ cs) = length (or_default c.arguments []) + arguments_chars cs

abbrev pub message_chars : Message → ℕ
message_chars m =
    content_len m + length (or_default m.reasoning_content []) + arguments_chars m.tool_calls

unfoldable pub messages_chars : List Message → ℕ
messages_chars [] = 0
messages_chars (m ∷ ms) = message_chars m + messages_chars ms

-- An id, unless it is absent or empty.
abbrev pub present : Option String → List String
present none = []
present (some s) = if s =s "" then [] else s ∷ []

abbrev pub call_ids : List ToolCall → List String
call_ids [] = []
call_ids (c ∷ cs) = present c.id ++ call_ids cs

-- The ids that a tool result answers.
abbrev pub answer_ids : Message → List String
answer_ids m = if is_tool m then present m.tool_call_id else []

unfoldable pub called : List Message → List String
called [] = []
called (m ∷ ms) = call_ids m.tool_calls ++ called ms

unfoldable pub answered : List Message → List String
answered [] = []
answered (m ∷ ms) = answer_ids m ++ answered ms

abbrev pub contains : List String → String → Bool
contains ids id = any (λ j. j =s id) ids

-- A set difference.
unfoldable pub minus : List String → List String → List String
minus [] ids = []
minus (a ∷ as') ids = if contains ids a then minus as' ids else a ∷ minus as' ids

-- Tool results with no originating call, and calls with no result.
unfoldable pub find_orphans : List Message → List String × List String
find_orphans ms = (minus (answered ms) (called ms), minus (called ms) (answered ms))

-- `STUB_SUFFIX.format(elided=n)`.
unfoldable pub stub_suffix : ℕ → Text
stub_suffix elided =
    codes "\n[compacted: "
    ++ (decimal elided
        ++ codes
            " chars elided. The full output is preserved in the run's trajectory artifact. Continue from your most recent conclusion.]")
