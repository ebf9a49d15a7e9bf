-- ===== src/Voice/Tests.antt =====
-- The theorems on src/repos/voice.py and src/repos/voice_access.py at one voice of one tenant.
use neuro_voice.Prelude.{
  ℕ, ◌≡◌, ◌≢◌, ◌&&◌, ◌==◌, refl, Bool, true, false, none, some, [], ◌∷◌, arith, is_some, find,
  select_where, count_where, All,
}
use neuro_voice.Voice.Defs.{Voice, Grant, synthetic}
use neuro_voice.Voice.Create.{NewVoice, new_voice}
use neuro_voice.Voice.Lifecycle.{lifecycle_state, purged, get_by_id, purged_row}
use neuro_voice.Voice.Lifecycle.Retention.{freezes, schedules, run, run-purged, IsTimely, IsAhead}
use neuro_voice.Voice.Visible.{is_usable, get_accessible_safe, get_accessible_complete}
use neuro_voice.Voice.Ownership.{deletes, apply, is_of, UniqueIds, apply_isolated}
use neuro_voice.Voice.Shown.{list_accessible_shows}
use neuro_voice.Voice.Listing.{InOrder}
use neuro_voice.Voice.{get_accessible, get_owned, earliest, list_accessible}

abbrev enrolment : NewVoice
enrolment = record {
  voice_id = 70;
  display_name = "Narrator";
  reference_uri = "voices/70.wav";
  reference_sha256 = "ab";
  reference_ms = 4000;
  license_kind = synthetic;
  reference_sample_rate = none;
  language = none;
  gender = none;
  style_tags = none;
  source = none;
  license_ref = none;
  visibility = none;
  engine_params = none;
  created_by_key_id = none;
  description = some "calm";
  labels = none;
  preview_url = none;
  voice_settings_defaults = none;
}

-- The voice 7 of tenant 1, with the slug 70.
abbrev voice : Voice
voice = new_voice 1 enrolment 7 5

abbrev buried : Voice
buried = purged_row 9 voice

-- Unfrozen, with the purge date 10.
abbrev due : Voice
due = record voice { purge_after_at = some 10 }

abbrev use_of : ℕ → Grant
use_of tenant = record {
  tenant_id = tenant;
  voice_id = 7;
  permission = "use";
  granted_at = 6;
  granted_by = none;
}

buried_found : get_by_id 7 (purged_row 9 voice ∷ []) ≡ some (purged_row 9 voice)
unfolding get_by_id purged_row
buried_found = refl

buried_purged : lifecycle_state (purged_row 9 voice) ≡ purged
unfolding lifecycle_state purged_row
buried_purged = refl

run-purged_example :
    run 7 ((20, freezes "claim" none) ∷ (21, schedules 3) ∷ []) (purged_row 9 voice ∷ [])
    ≡ purged_row 9 voice ∷ []
run-purged_example =
    run-purged 7 ((20, freezes "claim" none) ∷ (21, schedules 3) ∷ []) (purged_row 9 voice ∷ [])
      (purged_row 9 voice) buried_found buried_purged

timely : All (λ v. IsTimely 20 v × IsAhead 20 v) (voice ∷ [])
timely = (((tt, tt), λ _. tt), tt)

found : get_by_id 7 (voice ∷ []) ≡ some voice
unfolding get_by_id
found = refl

visible : get_accessible 2 70 (use_of 2 ∷ []) (voice ∷ []) ≡ some voice
unfolding get_accessible get_owned earliest
visible = refl

get_accessible_safe_example : is_usable 2 70 (use_of 2 ∷ []) voice ≡ true
get_accessible_safe_example = get_accessible_safe 2 70 (use_of 2 ∷ []) (voice ∷ []) voice visible

get_accessible_complete_example :
    is_some (get_accessible 2 70 (use_of 2 ∷ []) (voice ∷ []))
    ≡ is_some (find (is_usable 2 70 (use_of 2 ∷ [])) (voice ∷ []))
get_accessible_complete_example = get_accessible_complete 2 70 (use_of 2 ∷ []) (voice ∷ [])

voice-UniqueIds : UniqueIds (voice ∷ [])
voice-UniqueIds k = ground arith

other : ◌≢◌ {A = ℕ} 1 2
other = omega arith

apply_isolated_example :
    select_where (is_of 2) (apply 1 70 20 deletes (voice ∷ [])).1
    ≡ select_where (is_of 2) (voice ∷ [])
apply_isolated_example = apply_isolated 1 70 20 2 deletes (voice ∷ []) other voice-UniqueIds

list_accessible_shows_example :
    let listed = list_accessible 2 (use_of 2 ∷ []) false (voice ∷ []) in
    InOrder listed
    × (is_some (find (λ v. v.voice_id == 70) listed)
        ≡ is_some (get_accessible 2 70 (use_of 2 ∷ []) (voice ∷ [])))
    × ((q : Voice → Bool)
        → count_where q listed
          ≡ count_where (λ v. is_usable 2 v.voice_id (use_of 2 ∷ []) v && q v) (voice ∷ []))
list_accessible_shows_example = list_accessible_shows 2 70 (use_of 2 ∷ []) (voice ∷ [])
