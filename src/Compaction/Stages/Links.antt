-- ===== src/Compaction/Stages/Links.antt =====
-- swebench_eval/harnesses/compaction.py: a tool result never loses the call that it answers.
use agent_evals.Prelude.{
  String, ◌≡◌, inl, inr, refl, subst, Bool, true, not, ◌&&◌, List, [], ◌∷◌, ◌++◌, map, append_assoc,
  ◌=s◌, =s-eq, =s_refl, if◌then◌else◌, arith, Bool-cases,
}
use agent_evals.Compaction.Message.{
  Message, is_tool, call_ids, answer_ids, called, answered, contains, minus, find_orphans,
}

unfoldable pub all_in : List String → List String → Bool
all_in [] ids = true
all_in (a ∷ as') ids = contains ids a && all_in as' ids

-- The list is linked: each tool result answers a call of the message that its run of tool results
-- follows. `ids` are the calls of that message, at the start of the list.
unfoldable pub linked : List String → List Message → Bool
linked ids [] = true
linked ids (m ∷ ms) =
    if is_tool m
    then all_in (answer_ids m) ids && linked ids ms
    else linked (call_ids m.tool_calls) ms

pub last_ids : List String → List Message → List String
last_ids ids [] = ids
last_ids ids (m ∷ ms) = last_ids (if is_tool m then ids else call_ids m.tool_calls) ms

-- Empty, or begun by a message that is no tool result.
abbrev pub is_fresh : List Message → Bool
is_fresh [] = true
is_fresh (m ∷ ms) = not (is_tool m)

pub linked-append :
    (ids : List String) (xs ys : List Message)
    → linked ids (xs ++ ys) ≡ (linked ids xs && linked (last_ids ids xs) ys)
unfolding linked last_ids
linked-append ids [] ys = refl
linked-append ids (m ∷ xs) ys = elim (Bool-cases (is_tool m)) [
  | inl e ↦ rw e (ground (arith, linked-append ids xs ys))
  | inr e ↦ rw e (linked-append (call_ids m.tool_calls) xs ys)
]

pub linked_fresh :
    (ids ids' : List String) (ys : List Message)
    → is_fresh ys ≡ true
    → linked ids ys ≡ linked ids' ys
unfolding linked
linked_fresh ids ids' [] f = refl
linked_fresh ids ids' (m ∷ ys) f = ground arith

-- A change of a message that keeps its role, its calls and what it answers.
pub record KeepsLinks (f : Message → Message) : Type 0 where
  pub same_role : (m : Message) → (f m).role ≡ m.role
  pub same_calls : (m : Message) → (f m).tool_calls ≡ m.tool_calls
  pub same_answer : (m : Message) → (f m).tool_call_id ≡ m.tool_call_id

module _ (f : Message → Message) (k : KeepsLinks f) where
  pub linked-map : (ids : List String) (ms : List Message) → linked ids (map f ms) ≡ linked ids ms
  unfolding linked
  linked-map ids [] = refl
  linked-map ids (m ∷ ms) =
      rw (k.same_role m, k.same_calls m, k.same_answer m, linked)
        (ground (arith, linked-map ids ms, linked-map (call_ids m.tool_calls) ms))

  pub last_ids-map :
      (ids : List String) (ms : List Message) → last_ids ids (map f ms) ≡ last_ids ids ms
  unfolding last_ids
  last_ids-map ids [] = refl
  last_ids-map ids (m ∷ ms) =
      rw (k.same_role m, k.same_calls m, last_ids)
        (last_ids-map (if is_tool m then ids else call_ids m.tool_calls) ms)

  pub is_fresh-map : (ms : List Message) → is_fresh (map f ms) ≡ is_fresh ms
  is_fresh-map [] = refl
  is_fresh-map (m ∷ ms) = rw (k.same_role m)

-- Sets of ids.
contains-all_in :
    (ids set : List String) (a : String)
    → contains ids a ≡ true
    → all_in ids set ≡ true
    → contains set a ≡ true
unfolding all_in
contains-all_in [] set a c h = absurd (ground arith)
contains-all_in (i ∷ ids) set a c h = elim (Bool-cases (i =s a)) [
  | inl e ↦ subst (λ (s : String). contains set s ≡ true) (=s-eq i a e) (ground arith)
  | inr e ↦ contains-all_in ids set a (ground arith) (ground arith)
]

all_in_trans :
    (as' ids set : List String)
    → all_in as' ids ≡ true
    → all_in ids set ≡ true
    → all_in as' set ≡ true
unfolding all_in
all_in_trans [] ids set h k = refl
all_in_trans (a ∷ as') ids set h k =
    ground (arith, contains-all_in ids set a, all_in_trans as' ids set)

all_in-append : (xs ys set : List String) → all_in (xs ++ ys) set ≡ (all_in xs set && all_in ys set)
unfolding all_in
all_in-append [] ys set = refl
all_in-append (x ∷ xs) ys set = ground (arith, all_in-append xs ys set)

contains-append_right :
    (pre : List String) (x : String) (xs : List String) → contains (pre ++ x ∷ xs) x ≡ true
contains-append_right [] x xs = ground (arith, =s_refl x)
contains-append_right (p ∷ pre) x xs = ground (arith, contains-append_right pre x xs)

all_in_self : (pre xs : List String) → all_in xs (pre ++ xs) ≡ true
unfolding all_in
all_in_self pre [] = refl
all_in_self pre (x ∷ xs) = ground (
  arith,
  contains-append_right pre x xs,
  subst (λ (s : List String). all_in xs s ≡ true) (append_assoc pre (x ∷ []) xs)
      (all_in_self (pre ++ x ∷ []) xs),
)

minus-all_in : (as' set : List String) → all_in as' set ≡ true → minus as' set ≡ []
unfolding minus all_in
minus-all_in [] set h = refl
minus-all_in (a ∷ as') set h = ground (arith, minus-all_in as' set)

answered-all_in :
    (ids set : List String) (ms : List Message)
    → linked ids ms ≡ true
    → all_in ids set ≡ true
    → all_in (called ms) set ≡ true
    → all_in (answered ms) set ≡ true
unfolding linked called answered all_in
answered-all_in ids set [] h k c = refl
answered-all_in ids set (m ∷ ms) h k c = elim (Bool-cases (is_tool m)) [
  | inl e ↦ ground (
    arith,
    all_in-append (answer_ids m) (answered ms) set,
    all_in-append (call_ids m.tool_calls) (called ms) set,
    all_in_trans (answer_ids m) ids set,
    answered-all_in ids set ms,
  )
  | inr e ↦ ground (
    arith,
    all_in-append (call_ids m.tool_calls) (called ms) set,
    answered-all_in (call_ids m.tool_calls) set ms,
  )
]

-- A linked list has no orphaned tool result.
pub linked_no_orphans : (ms : List Message) → linked [] ms ≡ true → (find_orphans ms).0 ≡ []
unfolding find_orphans all_in
linked_no_orphans ms h =
    minus-all_in (answered ms) (called ms)
      (answered-all_in [] (called ms) ms h refl (all_in_self [] (called ms)))
