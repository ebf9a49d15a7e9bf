-- ===== src/Contracts/Tests.antt =====
-- src/repos/talent_contract.py on a contract that is revoked before it expires.
use neuro_voice.Prelude.{ℕ, ◌≡◌, ◌≢◌, refl, none, some, List, [], ◌∷◌, arith, All}
use neuro_voice.Contracts.{TalentContract, Agreement, get_active, revoke, withdrawn}
use neuro_voice.Contracts.Honoured.{Call, creates, revokes, IsOther, after_calls, get_active-revoke}

abbrev contract : TalentContract
contract = record {
  id = 1;
  talent_full_name = 65 ∷ 110 ∷ [];
  contract_pdf_uri = "r2://contracts/1.pdf";
  contract_pdf_sha256 = [];
  signed_at = 10;
  expires_at = some 90;
  jurisdiction = none;
  notes = none;
  created_by_operator_id = none;
  created_at = 11;
  revoked_at = none;
}

abbrev agreement : Agreement
agreement = record {
  talent_full_name = 66 ∷ [];
  contract_pdf_uri = "r2://contracts/2.pdf";
  contract_pdf_sha256 = [];
  signed_at = 20;
  created_by_operator_id = none;
  expires_at = none;
  jurisdiction = none;
  notes = none;
}

abbrev calls : List Call
calls = creates agreement 2 30 ∷ revokes 2 none 40 ∷ []

others : All (IsOther 1) calls
others = (two, (tt, tt))
  where
    two : ◌≢◌ {A = ℕ} 2 1
    two = omega arith

honoured : get_active 1 89 (contract ∷ []) ≡ some contract
unfolding get_active
honoured = refl

at_expiry : get_active 1 90 (contract ∷ []) ≡ none
unfolding get_active
at_expiry = refl

done : (revoke 1 none 50 (contract ∷ [])).0 ≡ some (withdrawn 50 contract)
unfolding revoke
done = refl

get_active-revoke_example :
    get_active 1 60 (after_calls calls (revoke 1 none 50 (contract ∷ [])).1) ≡ none
get_active-revoke_example =
    get_active-revoke calls 1 none 50 60 (contract ∷ []) (withdrawn 50 contract) others done
