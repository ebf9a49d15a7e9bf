-- ===== src/Fixtures.antt =====
-- A small deployment, on which the theorems are tried: one tenant with one voice, one job, an engine
-- that makes two chunks, and the tables that the job finds.
use neuro_voice.Prelude.{true, false, none, some, List, [], ◌∷◌}
use neuro_voice.Idempotency.{Row, processing}
use neuro_voice.Voice.{Voice, private, synthetic, draft}
use neuro_voice.Queue.{TtsJobPayload}
use neuro_voice.Pipeline.{World, Env, SynthChunk, stored}

abbrev pub narrator : Voice
narrator = record {
  id = 7;
  owner_tenant_id = 1;
  voice_id = 70;
  display_name = "Narrator";
  language = "tr";
  gender = "neutral";
  style_tags = [];
  reference_uri = "voices/70.wav";
  reference_sha256 = "ab";
  reference_ms = 4000;
  reference_sample_rate = 16000;
  source = "tenant-enroll";
  license_kind = synthetic;
  license_ref = none;
  visibility = private;
  engine_params = [];
  description = some "calm";
  labels = none;
  preview_url = none;
  voice_settings_defaults = none;
  adapter_uri = none;
  adapter_sha256 = none;
  adapter_type = none;
  watermark_key_id = none;
  watermark_enabled = true;
  eval_metrics = none;
  release_status = draft;
  created_by_key_id = none;
  created_at = 5;
  deleted_at = none;
  frozen_at = none;
  frozen_reason = none;
  purge_after_at = none;
  purged_at = none;
}

abbrev pub greeting : TtsJobPayload
greeting = record {
  request_id = 3;
  tenant_id = 1;
  api_key_id = 2;
  voice_id = 70;
  text = 77 ∷ 101 ∷ [];
  language = "tr";
  audio_format = "wav";
  model_id = none;
  voice_settings = none;
  params = none;
  seed = none;
  previous_text = none;
  next_text = none;
  pronunciation_dict = none;
  app_label = none;
  callback_url = none;
  enqueued_at_ms = some 90;
}

-- The row that the gateway reserved for the job.
abbrev pub reservation : Row
reservation = record {
  request_id = 3;
  tenant_id = 1;
  api_key_id = 2;
  request_hash = 11;
  response_uri = none;
  status = processing;
  created_at = 80;
  expires_at = 1000;
  sentence_alignment = none;
}

abbrev pub spoken : List SynthChunk
spoken =
    record { pcm_int16 = 1 ∷ 0 ∷ 2 ∷ 0 ∷ []; sample_rate = 1000; sentence_text = some "Mer" }
    ∷ record { pcm_int16 = 3 ∷ 0 ∷ []; sample_rate = 1000; sentence_text = some "haba" }
    ∷ []

abbrev pub studio : Env
studio = record {
  now = 100;
  elapsed_ms = 30;
  inference_ms = 20;
  first_audio_ms = 8;
  outage = false;
  resolve_reference = λ uri. some 5;
  audioseal = false;
  engine = λ job v ref. record { chunks = spoken; raised = false };
  sample_rate = 1000;
  apply_voice_settings = λ job v rate pcm. pcm;
  watermark_pcm = λ bits rate pcm. pcm;
  archive = some (λ pcm. stored 9);
  commit_raises = false;
  final_raises = false;
}

abbrev pub before : World
before = record {
  idem = reservation ∷ [];
  usage = [];
  voices = narrator ∷ [];
  grants = [];
  keys = [];
  streams = λ r. [];
}
