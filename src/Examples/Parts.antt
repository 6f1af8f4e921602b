-- ===== src/Examples/Parts.antt =====
-- The statements on batches, labels, variants, the history and the reporter at concrete inputs.
use quokka.Prelude.{
  Text, text, Bool, true, false, not, ◌&&◌, none, some, ℕ, ◌+◌, ◌≤◌, ltb, if◌then◌else◌, ◌≡◌, refl,
  List, [], ◌∷◌, map, Perm, arith, length, any, All, flatten, nat_key, text_key,
}
use quokka.Variant.{variant_text, parse, variant_text-parse}
use quokka.Environment.{profile_from_labels, default_profile}
use quokka.Environment.Laws.{described, profile_from_labels_lem}
use quokka.Batching.{partition, chunk_fixed_generic, bucket_generic, fixed_chunk, TestSelection}
use quokka.Batching.Chunks.Fixed.{chunk_fixed_generic_lem}
use quokka.Batching.Buckets.{bucket_generic_lem, IsBucket, partition-perm, members}
use quokka.DurationDb
use quokka.DurationDb.Percentile.{percentile}
use quokka.DurationDb.Percentile.Laws.{Covers, percentile-Covers}
use quokka.DurationDb.{ephemeral, record_at}
use quokka.DurationDb.Laws.{IsValid, record_at-IsValid}
use quokka.Scheduler.Verdict.{exit_code}
use quokka.Scheduler.Reporter.{reporter_task}
use quokka.Scheduler.Reporter.Laws.{blocks, tests_of, all_delivered}
use quokka.Scheduler.Reporter.Verdicts.{exit_code-reporter_task, reporter_task-reported}
use quokka.Scheduler.Reporter.Counts.{reporter_task-tally, drops_of, failures_of}
use quokka.Scheduler.Shard.Laws.{kept_by, kept_by-perm}
use quokka.Ids
use quokka.Ids.Laws.{Interns, intern-Interns}
use quokka.Std.{starts_with}
use quokka.Translator.Libtest.{no_args, parse_user_args}
use quokka.Translator.Libtest.Laws.{
  Selector, filter_by, filter_flag, filter_joined, skip, skip_joined, exact, arguments, selection,
  parse_user_args-given,
}
use quokka.Examples.Data.{config, messages, hash_key, id_of, parser_ok, lexer_bad, case_of}

abbrev weights : List ℕ
weights = 5 ∷ 1 ∷ 4 ∷ 2 ∷ 3 ∷ []

abbrev same : ℕ → ℕ
same n = n

abbrev small : ℕ → Bool
small n = ltb n 4

abbrev labels : List Text
labels = text "quokka:gpu" ∷ text "quokka:flaky" ∷ text "local-resource=db" ∷ []

chunk_fixed_generic_example :
    (chunks : List (List ℕ)) × (chunk_fixed_generic weights 2 same ≡ some chunks)
    × Perm (flatten chunks) weights
    × All (λ c. length c ≤ 2) chunks
    × (length chunks ≡ 3)
chunk_fixed_generic_example = chunk_fixed_generic_lem same weights 2 (omega arith)

partition_example :
    (sels : List (TestSelection ℕ)) × (partition same same (fixed_chunk 2) weights ≡ some sels)
    × Perm (members weights sels) weights
partition_example = partition-perm same same (fixed_chunk 2) weights (omega arith)

bucket_generic_example :
    (flatten (bucket_generic weights 2 small) ≡ weights)
    × All (IsBucket 2 small) (bucket_generic weights 2 small)
bucket_generic_example = bucket_generic_lem 2 small weights (omega arith)

profile_from_labels_example : profile_from_labels labels ≡ described default_profile labels
profile_from_labels_example = profile_from_labels_lem labels

variant_text_example : variant_text (parse (text "miri")) ≡ text "miri"
variant_text_example = variant_text-parse (text "miri")

ephemeral-IsValid : IsValid ephemeral
unfolding DurationDb.at
ephemeral-IsValid = record {
  perf_local = tt;
  perf_remote = tt;
  flakes_local = tt;
  flakes_remote = tt;
}

record_at_example :
    IsValid
      (record_at hash_key ephemeral DurationDb.local (id_of parser_ok) 1_000_000 false none 17)
unfolding DurationDb.at
record_at_example =
    record_at-IsValid hash_key ephemeral DurationDb.local (id_of parser_ok) 1_000_000 false none 17
      ephemeral-IsValid tt

abbrev delivered : ℕ → Bool
delivered n = true

exit_code_example : exit_code (reporter_task hash_key delivered same ephemeral messages).verdict ≡ (
    if not (any blocks messages) && all_delivered delivered 0 (length (tests_of messages))
    then 0
    else 32)
exit_code_example = exit_code-reporter_task hash_key delivered same ephemeral messages

reported_example :
    (reporter_task hash_key delivered same ephemeral messages).reported
    ≡ map (λ f. f.result) (tests_of messages)
reported_example = reporter_task-reported hash_key delivered same ephemeral messages

tally_example :
    let t = (reporter_task hash_key delivered same ephemeral messages).tally in
    (t.total ≡ length (tests_of messages) + drops_of messages)
    × (t.failed ≡ failures_of (tests_of messages) + drops_of messages)
    × (t.passed + t.failed + t.quarantined_failed + t.skipped ≡ t.total)
tally_example = reporter_task-tally hash_key delivered same ephemeral messages

kept_by_example :
    Perm
      (kept_by (text "root//lib:lib") (case_of parser_ok ∷ case_of lexer_bad ∷ []) config 3 3)
      (case_of parser_ok ∷ case_of lexer_bad ∷ [])
kept_by_example =
    kept_by-perm (text "root//lib:lib") (case_of parser_ok ∷ case_of lexer_bad ∷ []) config 3
      (omega arith)

percentile_example : Covers weights 95 (percentile weights 95)
percentile_example = percentile-Covers 5 (1 ∷ 4 ∷ 2 ∷ 3 ∷ []) 95 (omega arith)

abbrev interner : Ids.TestNameInterner
interner = record { names = lexer_bad ∷ []; index = (lexer_bad, 0) ∷ [] }

intern_example : Interns interner parser_ok
intern_example = intern-Interns interner parser_ok (refl, tt) (omega arith)

abbrev selectors : List Selector
selectors =
    filter_by (text "parser::")
    ∷ skip (text "slow")
    ∷ filter_flag (text "-x")
    ∷ exact
    ∷ filter_joined (text "lexer")
    ∷ skip_joined (text "net")
    ∷ []

abbrev dashed : List Text
dashed = text "--odd" ∷ text "ring" ∷ []

parse_user_args_example : parse_user_args (arguments dashed selectors) ≡ record no_args {
  listing_args = selection dashed selectors;
  whole_target_execution_args = selection dashed selectors;
}
unfolding starts_with
parse_user_args_example =
    parse_user_args-given dashed selectors (refl, (tt, (tt, (tt, (tt, (tt, tt))))))
