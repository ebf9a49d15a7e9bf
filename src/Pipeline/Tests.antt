-- ===== src/Pipeline/Tests.antt =====
-- The pipeline's theorems on one job (src/worker/pipeline.py).
use neuro_voice.Prelude.{ℕ, Bool, ◌≡◌, refl, false, none, some, List, [], ◌∷◌}
use neuro_voice.Voice.{get_accessible, get_owned, earliest}
use neuro_voice.Idempotency.{fail}
use neuro_voice.Models.{resolve_model}
use neuro_voice.ResultStream.{collect_pcm_until_final, take}
use neuro_voice.Fixtures.{greeting, studio, before}
use neuro_voice.Pipeline.State.{done, World, stored, ArchiveReply}
use neuro_voice.Queue.{TtsResult}
use neuro_voice.Prelude.Float.{thousandths}
use neuro_voice.ResultStream.Reads.{entries_read}
use neuro_voice.Pipeline.Effects.{Effect, process_one_job-Effect, mark_terminal_failure-idem}
use neuro_voice.Pipeline.Redelivery.{done-collect}
use neuro_voice.Pipeline.{
  process_one_job, with_voice, with_reference, synthesize, archive_audio, commit_job, finish,
  publish_chunks, publish_step, samples_ms, record_usage, xadd_result, mark_terminal_failure,
  watermark_bits,
}

abbrev drop_one : List TtsResult → List TtsResult
drop_one [] = []
drop_one (c ∷ cs) = cs

abbrev after : World
after = (process_one_job greeting studio none 1 before).1

returns : process_one_job greeting studio none 1 before ≡ (done, after)
unfolding process_one_job with_voice with_reference synthesize archive_audio commit_job finish
    publish_chunks publish_step record_usage xadd_result watermark_bits get_accessible get_owned
    earliest resolve_model
returns = refl

-- 48048 samples at 48 kHz are a millisecond less in floats.
loses_a_millisecond : samples_ms 48_048 48_000 ≡ 1000
unfolding samples_ms thousandths
loses_a_millisecond = refl

second : samples_ms 24_000 24_000 ≡ 1000
unfolding samples_ms thousandths
second = refl

-- The reader finds the first chunk in one XREAD, nothing in the next, and then the rest.
abbrev rounds : List (Bool × List TtsResult)
rounds = (false, take 1 (after.streams 3)) ∷ (false, []) ∷ (false, drop_one (after.streams 3)) ∷ []

all_read : entries_read rounds ≡ after.streams 3
unfolding process_one_job with_voice with_reference synthesize archive_audio commit_job finish
    publish_chunks publish_step record_usage xadd_result watermark_bits get_accessible get_owned
    earliest resolve_model
all_read = refl

done-collect_example :
    (pcm : List ℕ) × (sentences : ℕ) × (uri : ℕ) × (archive : List ℕ → ArchiveReply)
    × (studio.archive ≡ some archive)
    × (archive pcm ≡ stored uri)
    × (collect_pcm_until_final rounds ≡ some (pcm, sentences, none))
done-collect_example =
    done-collect greeting studio none 1 before after rounds returns (refl, (refl, (refl, tt)))
      all_read

process_one_job-Effect_example :
    Effect greeting studio before.idem before.usage (process_one_job greeting studio none 1 before)
process_one_job-Effect_example = process_one_job-Effect greeting studio none 1 before

records_failure :
    (mark_terminal_failure greeting "poison" "poison" 0 0 1 100 false before).1 ≡ false
unfolding mark_terminal_failure xadd_result record_usage
records_failure = refl

mark_terminal_failure-idem_example :
    (mark_terminal_failure greeting "poison" "poison" 0 0 1 100 false before).0.idem
    ≡ fail 1 3 100 before.idem
mark_terminal_failure-idem_example =
    mark_terminal_failure-idem greeting "poison" "poison" 0 0 1 100 false before records_failure
