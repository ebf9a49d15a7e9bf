-- ===== src/Contracts/Honoured.antt =====
-- When a contract stops being honoured (src/repos/talent_contract.py).
use neuro_voice.Prelude.{
  ℕ, ◌≤◌, ◌≡◌, ◌≢◌, inl, inr, refl, Bool, false, ◌&&◌, Option, none, some, List, [], ◌∷◌, ◌==◌,
  is_some, or_else, find, update_where, All, arith, Bool-cases, Option-cases,
}
use neuro_voice.Contracts.{
  TalentContract, Agreement, has_contract_id, is_current, passes_contract_checks, new_contract, get,
  get_active, create, withdrawn, revoke,
}

-- The two statements that write, with their arguments.
pub data Call : Type 0 where
  creates : Agreement → ℕ → ℕ → Call
  revokes : ℕ → Option ℕ → ℕ → Call

pub after_call : Call → List TalentContract → List TalentContract
unfolding create revoke
after_call (creates a id now) cs = (create a id now cs).1
after_call (revokes id at now) cs = (revoke id at now cs).1

pub after_calls : List Call → List TalentContract → List TalentContract
unfolding after_call
after_calls [] cs = cs
after_calls (c ∷ calls) cs = after_calls calls (after_call c cs)

-- The call does not make a row with this key: a fresh UUID is not one that was handed out.
abbrev pub IsOther : ℕ → Call → Type 0
IsOther id (creates a id' now) = id' ≢ id
IsOther id (revokes id' at now) = Unit

find-none_cons :
    (p : TalentContract → Bool) (c : TalentContract) (cs : List TalentContract)
    → find p (c ∷ cs) ≡ none
    → (p c ≡ false) × (find p cs ≡ none)
find-none_cons p c cs e = elim (Bool-cases (p c)) [
  | inl f ↦ ground (arith, e, f)
  | inr f ↦ (f, ground (arith, e, f))
]

find-none_step :
    (p : TalentContract → Bool) (c : TalentContract) (cs : List TalentContract)
    → p c ≡ false
    → find p cs ≡ none
    → find p (c ∷ cs) ≡ none
find-none_step p c cs f rest = rw f rest

is_current_later :
    (id t t' : ℕ) (c : TalentContract)
    → t ≤ t'
    → (has_contract_id id c && is_current t c) ≡ false
    → (has_contract_id id c && is_current t' c) ≡ false
is_current_later id t t' c le f = elim (Option-cases c.expires_at) [
  | inl e ↦ ground (arith, e, f)
  | inr (at, e) ↦ ground (arith, e, f, le)
]

get_active_later :
    (id t t' : ℕ) (cs : List TalentContract)
    → t ≤ t'
    → get_active id t cs ≡ none
    → get_active id t' cs ≡ none
unfolding get_active
get_active_later id t t' [] le e = refl
get_active_later id t t' (c ∷ cs) le e =
    let (fails, rest) = find-none_cons (λ x. has_contract_id id x && is_current t x) c cs e in
    find-none_step (λ x. has_contract_id id x && is_current t' x) c cs
      (is_current_later id t t' c le fails) (get_active_later id t t' cs le rest)

get_active-withdrawn :
    (id t key at : ℕ) (cs : List TalentContract)
    → get_active id t cs ≡ none
    → get_active id t (update_where (has_contract_id key) (withdrawn at) cs) ≡ none
unfolding get_active
get_active-withdrawn id t key at [] e = refl
get_active-withdrawn id t key at (c ∷ cs) e =
    let (fails, rest) = find-none_cons (λ x. has_contract_id id x && is_current t x) c cs e in
    let next = get_active-withdrawn id t key at cs rest in
    elim (Bool-cases (c.id == key)) [
      | inl f ↦ rw f (
          find-none_step (λ x. has_contract_id id x && is_current t x) (withdrawn at c) _
            (ground arith) next)
      | inr f ↦ rw f (find-none_step (λ x. has_contract_id id x && is_current t x) c _ fails next)
    ]

get_active-after_call :
    (id t : ℕ) (call : Call) (cs : List TalentContract)
    → IsOther id call
    → get_active id t cs ≡ none
    → get_active id t (after_call call cs) ≡ none
unfolding after_call create revoke get_active
get_active-after_call id t (creates a key now) cs other e =
    elim (Bool-cases (passes_contract_checks (new_contract a key now))) [
      | inl f ↦
          rw (f, after_call)
            (find-none_step (λ x. has_contract_id id x && is_current t x) (new_contract a key now)
              cs (ground (arith, other)) e)
      | inr f ↦ rw (f, after_call) e
    ]
get_active-after_call id t (revokes key at now) cs other e = elim (Option-cases (get key cs)) [
  | inl f ↦ rw (f, after_call) e
  | inr (c, f) ↦ elim (Bool-cases (is_some c.revoked_at)) [
    | inl g ↦ rw (f, g, after_call) e
    | inr g ↦ rw (f, g, after_call) (get_active-withdrawn id t key (or_else at now) cs e)
  ]
]

-- What is not honoured at one time, since it was revoked, has expired or does not exist, is not honoured
-- at a later one, whatever is created under other keys and revoked in between.
pub get_active_final :
    (calls : List Call) (id t t' : ℕ) (cs : List TalentContract)
    → All (IsOther id) calls
    → t ≤ t'
    → get_active id t cs ≡ none
    → get_active id t' (after_calls calls cs) ≡ none
unfolding after_calls
get_active_final [] id t t' cs other le e = get_active_later id t t' cs le e
get_active_final (call ∷ calls) id t t' cs other le e =
    get_active_final calls id t t' (after_call call cs) other.1 le
      (get_active-after_call id t call cs other.0 e)

withdrawn_all :
    (id t at : ℕ) (cs : List TalentContract)
    → get_active id t (update_where (has_contract_id id) (withdrawn at) cs) ≡ none
unfolding get_active
withdrawn_all id t at [] = refl
withdrawn_all id t at (c ∷ cs) = elim (Bool-cases (c.id == id)) [
  | inl f ↦ rw f (
      find-none_step (λ x. has_contract_id id x && is_current t x) (withdrawn at c) _ (ground arith)
        (withdrawn_all id t at cs))
  | inr f ↦ rw f (
      find-none_step (λ x. has_contract_id id x && is_current t x) c _ (ground (arith, f))
        (withdrawn_all id t at cs))
]

-- A contract that was revoked is never honoured again, at no time and whatever is created under other
-- keys and revoked afterwards.
pub get_active-revoke :
    (calls : List Call) (id : ℕ) (revoked_at : Option ℕ) (now t : ℕ) (cs : List TalentContract)
    (c : TalentContract)
    → All (IsOther id) calls
    → (revoke id revoked_at now cs).0 ≡ some c
    → get_active id t (after_calls calls (revoke id revoked_at now cs).1) ≡ none
unfolding revoke
get_active-revoke calls id revoked_at now t cs c other done =
    get_active_final calls id 0 t (revoke id revoked_at now cs).1 other (omega arith)
      (elim (Option-cases (get id cs)) [
        | inl e ↦ ground (arith, e, done)
        | inr (row, e) ↦ elim (Bool-cases (is_some row.revoked_at)) [
          | inl f ↦ ground (arith, e, f, done)
          | inr f ↦ rw (e, f, revoke) (withdrawn_all id 0 (or_else revoked_at now) cs)
        ]
      ])
