-- ===== src/Consent/Tests.antt =====
-- A voice whose first consent is revoked after a contract was recorded (src/repos/voice_consent.py).
use neuro_voice.Consent.Latest.{latest_active-revoke}
use neuro_voice.Prelude.{ℕ, ◌≢◌, ◌≡◌, refl, true, none, some, List, [], ◌∷◌}
use neuro_voice.Consent.{
  ConsentRecord, stored, tenant_asserted, signed_contract, tenant, operator, latest_active,
  Evidence, new_record, record_consent, revoke,
}

abbrev asserted : Evidence
asserted = record {
  voice_id = 7;
  consent_kind = tenant_asserted;
  recorded_by_kind = tenant;
  recorded_by_actor_id = some 2;
  evidence_uri = none;
  evidence_sha256 = none;
  evidence_notes = none;
}

abbrev contract : Evidence
contract = record {
  voice_id = 7;
  consent_kind = signed_contract;
  recorded_by_kind = operator;
  recorded_by_actor_id = some 4;
  evidence_uri = some "contracts/7.pdf";
  evidence_sha256 = none;
  evidence_notes = none;
}

abbrev first : List ConsentRecord
first = new_record asserted 1 100 ∷ []

abbrev both : List ConsentRecord
both = new_record contract 2 200 ∷ first

stores_contract :
    record_consent contract true 2 200 first ≡ (stored (new_record contract 2 200), both)
unfolding record_consent
stores_contract = refl

abbrev withdrawn : ConsentRecord
withdrawn = record (new_record contract 2 200) { revoked_at = some 300 }

stores_revocation : (revoke 2 none none 300 both).0 ≡ stored withdrawn
unfolding revoke
stores_revocation = refl

falls_back : latest_active 7 (revoke 2 none none 300 both).1 ≡ some (new_record asserted 1 100)
unfolding revoke latest_active
falls_back = refl

latest_active-revoke_example : ◌≢◌ {A = ℕ} 1 2
latest_active-revoke_example =
    latest_active-revoke 2 none none 300 7 both withdrawn (new_record asserted 1 100)
      stores_revocation falls_back
