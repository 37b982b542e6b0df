-- ===== src/Results/Wire/RoundTrip.antt =====
-- results_writer.py `_parse_result` after `dataclasses.asdict`: what a worker sends is what is written.
use agent_evals.Prelude.{
  ℕ, ◌≡◌, ◌≢◌, refl, String, Bool, Option, none, some, List, [], ◌∷◌, ◌=s◌, =s-eq, inl, inr,
  Bool-cases,
}
use agent_evals.Results.{text, int, float, bool, texts, from_option, ResultMessage}
use agent_evals.Results.Wire.{
  Casts, body_get, get_or, required, str, int_of, float_of, truth, some_unless_null, opt_int,
  opt_float, opt_bool, flag_unless_null, text_or_none, opt_text, list_of, list_or_empty,
  texts_or_empty, opt_texts, parse_usage, parse_timing, parse_honesty, parse_sizes, parse_result,
  as_dict,
}

module _ (c : Casts) where
  int_read : (o : Option ℕ) → some_unless_null (int_of c) (from_option int o) ≡ some o
  unfolding some_unless_null int_of
  int_read none = refl
  int_read (some n) = refl

  float_read : (o : Option ℕ) → some_unless_null (float_of c) (from_option float o) ≡ some o
  unfolding some_unless_null float_of
  float_read none = refl
  float_read (some n) = refl

  texts_read :
      (o : Option (List String)) → some_unless_null (list_of c) (from_option texts o) ≡ some o
  unfolding some_unless_null list_of
  texts_read none = refl
  texts_read (some n) = refl

  flag_read : (o : Option Bool) → flag_unless_null (from_option bool o) ≡ o
  unfolding flag_unless_null truth
  flag_read none = refl
  flag_read (some n) = refl

  list_read : (xs : List String) → list_or_empty c (texts xs) ≡ some xs
  unfolding list_or_empty truth list_of
  list_read [] = refl
  list_read (x ∷ xs) = refl

  source_read : (o : Option String) → o ≢ some "" → text_or_none c (from_option text o) ≡ o
  unfolding text_or_none truth str
  source_read none h = refl
  source_read (some s) h = elim (Bool-cases (s =s "")) [
    | inl e ↦ absurd (h (rw (=s-eq s "" e) refl))
    | inr e ↦ rw e refl
  ]

  parse_usage-as_dict :
      (m : ResultMessage) → m.usage.cost_source ≢ some "" → parse_usage c (as_dict m) ≡ some m.usage
  unfolding parse_usage opt_float opt_int opt_text body_get as_dict ◌=s◌
  parse_usage-as_dict m h =
      rw
        (
          int_read m.usage.input_tokens,
          int_read m.usage.output_tokens,
          int_read m.usage.cached_tokens,
          int_read m.usage.cache_write_tokens,
          int_read m.usage.reasoning_tokens,
          source_read m.usage.cost_source h,
          int_read m.usage.usage_parse_failed_calls,
          int_read m.usage.paced_wait_ms_total,
          int_read m.usage.paced_calls,
          int_read m.usage.pacer_timeouts,
          int_read m.usage.overload_retries_total,
          int_read m.usage.turns_used,
          float_read m.usage.cost_usd,
          int_read m.usage.adapter_input_tokens,
          int_read m.usage.adapter_output_tokens,
          float_read m.usage.adapter_cost_usd,
        )
        refl

  parse_timing-as_dict : (m : ResultMessage) → parse_timing c (as_dict m) ≡ some m.timing
  unfolding parse_timing opt_bool opt_float body_get as_dict ◌=s◌
  parse_timing-as_dict m =
      rw
        (
          float_read m.timing.queue_wait_s,
          float_read m.timing.provision_s,
          float_read m.timing.image_pull_s,
          float_read m.timing.worker_boot_s,
          float_read m.timing.repo_prep_s,
          float_read m.timing.agent_s,
          float_read m.timing.patch_extract_s,
          float_read m.timing.artifact_upload_s,
          float_read m.timing.task_observed_s,
          float_read m.timing.task_billed_s,
          flag_read m.timing.repo_prep_cache_hit,
          flag_read m.timing.image_pull_cold,
          float_read m.timing.eval_queue_wait_s,
          float_read m.timing.eval_patch_fetch_s,
          float_read m.timing.eval_image_pull_s,
          float_read m.timing.eval_test_s,
          float_read m.timing.eval_log_upload_s,
          flag_read m.timing.eval_image_pull_cold,
        )
        refl

  parse_honesty-as_dict : (m : ResultMessage) → parse_honesty c (as_dict m) ≡ some m.honesty
  unfolding parse_honesty opt_bool opt_float opt_texts texts_or_empty body_get as_dict ◌=s◌
  parse_honesty-as_dict m =
      rw
        (
          list_read m.honesty.stripped_test_paths,
          flag_read m.honesty.grade_invalid,
          texts_read m.honesty.leaked_node_ids,
          flag_read m.honesty.leak_detectable,
          float_read m.honesty.gold_patch_similarity,
        )
        refl

  parse_sizes-as_dict : (m : ResultMessage) → parse_sizes c (as_dict m) ≡ some m.sizes
  unfolding parse_sizes opt_int body_get as_dict ◌=s◌
  parse_sizes-as_dict m =
      rw
        (
          int_read m.sizes.compactions_fired,
          int_read m.sizes.compaction_tokens_before,
          int_read m.sizes.compaction_tokens_after,
          int_read m.sizes.context_window_tokens,
        )
        refl

  -- Parsing the body that a result message is sent as gives the message back, whatever its fields are,
  -- where its cost source is not the empty text, which is read as none.
  pub parse_result-as_dict :
      (m : ResultMessage) → m.usage.cost_source ≢ some "" → parse_result c (as_dict m) ≡ some m
  unfolding parse_result required get_or str int_of float_of truth as_dict ◌=s◌
  parse_result-as_dict m h =
      rw
        (
          parse_usage-as_dict m h,
          parse_timing-as_dict m,
          parse_honesty-as_dict m,
          parse_sizes-as_dict m,
        )
        refl
