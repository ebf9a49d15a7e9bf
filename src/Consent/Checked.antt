-- ===== src/Consent/Checked.antt =====
-- The CHECK constraints of voice_consent_records (src/db/models.py) over any history of the table.
use Prim.Native.String.{String}
use mathlib.Core.Path.{subst}
use neuro_voice.Prelude.{
  ℕ, ◌≡◌, inl, inr, refl, Bool, true, not, ◌&&◌, Option, none, some, List, [], ◌∷◌, ◌≤◌, ◌==◌,
  is_some, or_else, find, find-none_count, update_where, update_where-none, count-update_same,
  count_where, All, arith, Option-cases, Bool-cases,
}
use neuro_voice.Consent.{
  ConsentRecord, passes_checks, is_asserted, insert_checked, Evidence, new_record, record_consent,
  has_consent_id, revoked, revoke,
}

-- The tables that calls of the repository lead to from an empty one. No two rows have the same id.
pub data Reached : List ConsentRecord → Type 0 where
  empty : Reached []
  recorded :
      {rs : List ConsentRecord} (e : Evidence) (voice_exists : Bool) (id now : ℕ)
      → find (has_consent_id id) rs ≡ none
      → Reached rs
      → Reached (record_consent e voice_exists id now rs).1
  revoked_one :
      {rs : List ConsentRecord} (id : ℕ) (reason : Option String) (revoked_at : Option ℕ) (now : ℕ)
      → Reached rs
      → Reached (revoke id reason revoked_at now rs).1

abbrev pub IsChecked : ConsentRecord → Type 0
IsChecked r = passes_checks r ≡ true

insert_checked-IsChecked :
    (voice_exists : Bool) (r : ConsentRecord) (rs : List ConsentRecord)
    → All IsChecked rs
    → All IsChecked (insert_checked voice_exists r rs).1
insert_checked-IsChecked voice_exists r rs all =
    elim (Bool-cases (voice_exists && passes_checks r)) [
      | inl e ↦ rw e (ground (arith, e), all)
      | inr e ↦ rw e all
    ]

-- An UPDATE by the key of a row that was found and is alone in having it.
All-update_found :
    (p : ConsentRecord → Bool) (f : ConsentRecord → ConsentRecord) (rs : List ConsentRecord)
    (r : ConsentRecord)
    → find p rs ≡ some r
    → IsChecked (f r)
    → count_where p rs ≤ 1
    → All IsChecked rs
    → All IsChecked (update_where p f rs)
All-update_found p f [] r e ok one all = tt
All-update_found p f (x ∷ rs) r e ok one all = elim (Bool-cases (p x)) [
  | inl hit ↦
      let same : x ≡ r = ground (arith, e, hit) in
      rw (hit, same, update_where-none p f rs (ground (arith, one, hit))) (ok, all.1)
  | inr miss ↦ rw miss (
    all.0,
    All-update_found p f rs r (ground (arith, e, miss)) ok (ground (arith, one, miss)) all.1,
  )
]

abbrev pub UniqueIds : List ConsentRecord → Type 0
UniqueIds rs = (id : ℕ) → count_where (has_consent_id id) rs ≤ 1

insert_checked-UniqueIds :
    (voice_exists : Bool) (r : ConsentRecord) (rs : List ConsentRecord)
    → find (has_consent_id r.id) rs ≡ none
    → UniqueIds rs
    → UniqueIds (insert_checked voice_exists r rs).1
insert_checked-UniqueIds voice_exists r rs free unique id =
    elim (Bool-cases (voice_exists && passes_checks r)) [
      | inl e ↦ rw e (elim (Bool-cases (r.id == id)) [
        | inl same ↦
            let is_id : r.id ≡ id = ground (arith, same) in
            let zero_there =
              find-none_count (has_consent_id id) rs
                (subst (λ i. find (has_consent_id i) rs ≡ none) is_id free) in
            ground (arith, same, zero_there)
        | inr other ↦ ground (arith, other, unique id)
      ])
      | inr e ↦ rw e (unique id)
    ]

abbrev IsKept : List ConsentRecord → Type 0
IsKept rs = All IsChecked rs × UniqueIds rs

record_consent-IsKept :
    (e : Evidence) (voice_exists : Bool) (id now : ℕ) (rs : List ConsentRecord)
    → find (has_consent_id id) rs ≡ none
    → IsKept rs
    → IsKept (record_consent e voice_exists id now rs).1
unfolding record_consent
record_consent-IsKept e voice_exists id now rs free kept =
    let inserted : IsKept (insert_checked voice_exists (new_record e id now) rs).1 = (
      insert_checked-IsChecked voice_exists (new_record e id now) rs kept.0,
      insert_checked-UniqueIds voice_exists (new_record e id now) rs free kept.1,
    ) in
    elim (Bool-cases (is_asserted e.consent_kind && is_some e.evidence_uri)) [
      | inl a ↦ rw (a, record_consent) kept
      | inr a ↦
          elim (Bool-cases (not (is_asserted e.consent_kind) && not (is_some e.evidence_uri))) [
            | inl b ↦ rw (a, b, record_consent) kept
            | inr b ↦ rw (a, b, record_consent) inserted
          ]
    ]

revoke-IsKept :
    (id : ℕ) (reason : Option String) (revoked_at : Option ℕ) (now : ℕ) (rs : List ConsentRecord)
    → IsKept rs
    → IsKept (revoke id reason revoked_at now rs).1
unfolding revoke
revoke-IsKept id reason revoked_at now rs kept = elim (Option-cases (find (has_consent_id id) rs)) [
  | inl f ↦ rw (f, revoke) kept
  | inr (row, f) ↦ elim (Bool-cases (is_some row.revoked_at)) [
    | inl g ↦ rw (f, g, revoke) kept
    | inr g ↦
        let mark = revoked reason (or_else revoked_at now) in
        elim (Bool-cases (passes_checks (mark row))) [
          | inr h ↦ rw (f, g, h, revoke) kept
          | inl h ↦
              rw (f, g, h, revoke)
                (
                  All-update_found (has_consent_id id) mark rs row f h (kept.1 id) kept.0,
                  λ other.
                      rw
                        (count-update_same (has_consent_id id) (has_consent_id other) mark rs
                          (λ x. refl))
                        (kept.1 other),
                )
        ]
  ]
]

-- Whatever `record` and `revoke` are called with, in any order, every row of the table satisfies the
-- constraints: a tenant's assertion has no evidence and every other kind has some, a digest is 64
-- lower-case hexadecimal digits, and no revocation is before the recording. No two rows share an id.
pub Reached-IsChecked : (rs : List ConsentRecord) → Reached rs → All IsChecked rs × UniqueIds rs
Reached-IsChecked rs empty = (tt, λ id. omega arith)
Reached-IsChecked _ (recorded {rs} e voice_exists id now free before) =
    record_consent-IsKept e voice_exists id now rs free (Reached-IsChecked rs before)
Reached-IsChecked _ (revoked_one {rs} id reason revoked_at now before) =
    revoke-IsKept id reason revoked_at now rs (Reached-IsChecked rs before)
