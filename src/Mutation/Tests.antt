-- ===== src/Mutation/Tests.antt =====
-- Runs of `execute_record_mutations`, and its theorems at concrete inputs.
use technology_library_inges.Base.{
  List, ◌≡◌, refl, true, none, some, [], ◌∷◌, str_eq, ok, raised, type_error, inl, starts_with,
}
use technology_library_inges.Json.{
  null, str, arr, obj, fields, list_items, get, truthy, text_or_empty, str_of_length,
}
use technology_library_inges.Storage.{memory-IsFramed, memory-IsReliable, holds, bytes_eq}
use technology_library_inges.Samples.{
  ones, twos, sample_sha, healthy, broken, with_file, one_byte, plan, plan_of, files,
}
use technology_library_inges.Mutation.Validate.{
  create, update, Item, validate_transaction_for_mutation,
}
use technology_library_inges.Mutation.Execute.Completion.{execute_record_mutations_completes}
use technology_library_inges.Mutation.Execute.{
  Expected, preflight_record_mutations, preflight_scan, preflight_items, check_content,
  target_errors, Report, execute_record_mutations, records_verified, recovery_required,
}
use technology_library_inges.Mutation.Execute.Contract.{
  Completed, execute-Published, execute_unchanged, execute-outside,
}

verified_report : Report
verified_report = record {
  transaction_id = str "t1";
  state = records_verified;
  writes_completed = 2;
  verified_items = 2;
  canonical_mutation_started = true;
}

run_verified :
    (execute_record_mutations healthy sample_sha plan files).0 ≡ ok (some verified_report, [])
unfolding execute_record_mutations verified_report get truthy text_or_empty str_of_length str_eq
    starts_with
run_verified = refl

-- The second write fails after the first one: the report asks for a recovery.
run_broken :
    (execute_record_mutations broken sample_sha plan files).0
    ≡ ok (
      some (record {
        transaction_id = str "t1";
        state = recovery_required;
        writes_completed = 1;
        verified_items = 1;
        canonical_mutation_started = true;
      }),
      "item_1_write_failed" ∷ [],
    )
unfolding execute_record_mutations get truthy text_or_empty str_of_length str_eq starts_with
run_broken = refl

-- The target to create exists already.
run_refused :
    (execute_record_mutations healthy sample_sha plan
      (with_file "00_LIBRARY/a.md" one_byte files)).0
    ≡ ok (none, "item_0_create_target_exists" ∷ [])
unfolding execute_record_mutations get truthy text_or_empty str_of_length str_eq starts_with
run_refused = refl

-- A list where the action is expected raises `TypeError`.
run_raises :
    validate_transaction_for_mutation
      (plan_of (obj (fields (("action", arr (list_items [])) ∷ [])) ∷ []))
    ≡ raised type_error
unfolding validate_transaction_for_mutation get str_eq
run_raises = refl

execute-Published_example :
    Completed healthy sample_sha plan files
      (execute_record_mutations healthy sample_sha plan files).1
      (some verified_report)
execute-Published_example =
    execute-Published healthy (memory-IsFramed []) sample_sha plan files (some verified_report)
      run_verified

execute_unchanged_example :
    (execute_record_mutations healthy sample_sha plan
      (with_file "00_LIBRARY/a.md" one_byte files)).1
    ≡ with_file "00_LIBRARY/a.md" one_byte files
execute_unchanged_example =
    execute_unchanged healthy sample_sha plan (with_file "00_LIBRARY/a.md" one_byte files) none
      ("item_0_create_target_exists" ∷ []) run_refused (inl refl)

execute-outside_example :
    healthy.read
      (execute_record_mutations healthy sample_sha plan files).1
      "99_INBOX/CANDIDATES/a.md"
    ≡ healthy.read files "99_INBOX/CANDIDATES/a.md"
unfolding starts_with
execute-outside_example =
    execute-outside healthy (memory-IsFramed []) sample_sha plan files "99_INBOX/CANDIDATES/a.md"
      refl

planned_items : List Item
planned_items =
    record {
      action = create;
      target_path = "00_LIBRARY/a.md";
      content_path = "99_INBOX/CANDIDATES/a.md";
      content_sha256 = str twos;
      base_sha256 = null;
    }
    ∷ record {
      action = update;
      target_path = "00_LIBRARY/b.md";
      content_path = "99_INBOX/CANDIDATES/b.md";
      content_sha256 = str twos;
      base_sha256 = str ones;
    }
    ∷ []

preflight :
    (e : Expected) × (preflight_record_mutations healthy sample_sha plan files
      ≡ ok (planned_items, e, []))
unfolding preflight_record_mutations preflight_scan preflight_items check_content target_errors
    validate_transaction_for_mutation planned_items holds bytes_eq get truthy text_or_empty
    str_of_length str_eq starts_with
preflight = (_, refl)

execute_record_mutations_completes_example :
    (r : Report) × ((execute_record_mutations healthy sample_sha plan files).0 ≡ ok (some r, []))
execute_record_mutations_completes_example =
    execute_record_mutations_completes healthy (memory-IsFramed []) memory-IsReliable sample_sha
      plan files planned_items preflight.0 preflight.1
