-- ===== src/Contracts.antt =====
-- `TalentContractRepo` of src/repos/talent_contract.py with the CHECK constraints of its table in
-- src/db/models.py. A name, a digest and a jurisdiction are lists of code points.
pub mod Honoured
mod Tests
use Prim.Native.String.{String}
use neuro_voice.Prelude.{
  ℕ, Bool, true, false, ◌&&◌, ◌||◌, not, Option, none, some, List, [], ◌∷◌, leb, ltb, ◌==◌,
  if◌then◌else◌, is_some, or_else, find, update_where, select_where, length,
}
use neuro_voice.Prelude.Text.{Text}
use neuro_voice.Consent.{all_hex}
use neuro_voice.Prelude.Sorted.{order_by}

pub record TalentContract : Type 0 where
  pub id : ℕ
  pub talent_full_name : Text
  pub contract_pdf_uri : String
  pub contract_pdf_sha256 : Text
  pub signed_at : ℕ
  pub expires_at : Option ℕ
  pub jurisdiction : Option Text
  pub notes : Option String
  pub created_by_operator_id : Option ℕ
  pub created_at : ℕ
  pub revoked_at : Option ℕ

-- talent_contracts_name_length
abbrev pub is_name : Text → Bool
is_name name = leb 1 (length name) && leb (length name) 200

-- `[A-Z]`
abbrev pub is_capital : ℕ → Bool
is_capital c = leb 65 c && leb c 90

-- talent_contracts_sha256_format
abbrev pub is_pdf_sha256 : Text → Bool
is_pdf_sha256 digest = length digest == 64 && all_hex digest

-- talent_contracts_jurisdiction_format; EU is two capitals as well.
abbrev pub is_jurisdiction : Option Text → Bool
is_jurisdiction none = true
is_jurisdiction (some (a ∷ b ∷ [])) = is_capital a && is_capital b
is_jurisdiction (some _) = false

-- talent_contracts_expires_after_signed
abbrev pub expires_after : ℕ → Option ℕ → Bool
expires_after signed_at none = true
expires_after signed_at (some expires_at) = ltb signed_at expires_at

abbrev pub passes_contract_checks : TalentContract → Bool
passes_contract_checks c =
    is_name c.talent_full_name
    && (is_pdf_sha256 c.contract_pdf_sha256
        && (is_jurisdiction c.jurisdiction && expires_after c.signed_at c.expires_at))

abbrev pub has_contract_id : ℕ → TalentContract → Bool
has_contract_id id c = c.id == id

-- Not revoked, and without an expiry or with one in the future.
abbrev pub is_current : ℕ → TalentContract → Bool
is_current now c = not (is_some c.revoked_at) && expires_after now c.expires_at

pub get : ℕ → List TalentContract → Option TalentContract
get id = find (has_contract_id id)

pub get_active : ℕ → ℕ → List TalentContract → Option TalentContract
get_active id now = find (λ c. has_contract_id id c && is_current now c)

pub list_active : ℕ → List TalentContract → List TalentContract
list_active now cs =
    order_by (λ a b. leb b.signed_at a.signed_at) (select_where (is_current now) cs)

-- The arguments of `create`.
pub record Agreement : Type 0 where
  pub talent_full_name : Text
  pub contract_pdf_uri : String
  pub contract_pdf_sha256 : Text
  pub signed_at : ℕ
  pub created_by_operator_id : Option ℕ
  pub expires_at : Option ℕ
  pub jurisdiction : Option Text
  pub notes : Option String

abbrev pub new_contract : Agreement → ℕ → ℕ → TalentContract
new_contract a id now = record {
  id = id;
  talent_full_name = a.talent_full_name;
  contract_pdf_uri = a.contract_pdf_uri;
  contract_pdf_sha256 = a.contract_pdf_sha256;
  signed_at = a.signed_at;
  expires_at = a.expires_at;
  jurisdiction = a.jurisdiction;
  notes = a.notes;
  created_by_operator_id = a.created_by_operator_id;
  created_at = now;
  revoked_at = none;
}

-- The key and the time of the new row are arguments; none is the IntegrityError of the flush.
pub create : Agreement → ℕ → ℕ → List TalentContract → Option TalentContract × List TalentContract
create a id now cs =
    let c = new_contract a id now in
    if passes_contract_checks c then (some c, c ∷ cs) else (none, cs)

abbrev pub withdrawn : ℕ → TalentContract → TalentContract
withdrawn at c = record c { revoked_at = some at }

pub revoke : ℕ → Option ℕ → ℕ → List TalentContract → Option TalentContract × List TalentContract
unfolding get
revoke id revoked_at now cs = elim (get id cs) [
  | none ↦ (none, cs)
  | some c ↦
      let at = or_else revoked_at now in
      if is_some c.revoked_at
      then (none, cs)
      else (some (withdrawn at c), update_where (has_contract_id id) (withdrawn at) cs)
]
