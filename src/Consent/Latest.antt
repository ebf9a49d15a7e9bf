-- ===== src/Consent/Latest.antt =====
-- Which record `latest_active` of src/repos/voice_consent.py takes.
use mathlib.Core.List.{Memᴰ}
use mathlib.Core.List.Memᴰ.{not-nil, cases_cons}
use Prim.Native.String.{String}
use mathlib.Core.Path.{subst}
use neuro_voice.Prelude.{
  ℕ, ◌≤◌, ◌≡◌, ◌≢◌, ◌⊎◌, inl, inr, refl, sym, ap, ◌∙◌, Bool, true, false, not, ◌&&◌, Option, none,
  some, List, [], ◌∷◌, leb, ◌==◌, is_some, or_else, find, update_where, select_where, All, All-map,
  arith, Option-cases, Bool-cases,
}
use neuro_voice.Consent.{
  ConsentRecord, stored, insert_newest, newest_first, first_of, is_active_for, latest_active,
  Evidence, is_asserted, passes_checks, new_record, record_consent, has_consent_id, revoked, revoke,
}

abbrev pub NoLaterThan : ConsentRecord → ConsentRecord → Type 0
NoLaterThan r x = x.recorded_at ≤ r.recorded_at

-- The head after an insertion is the new record or the old head, whichever is the newer.
first-insert_newest :
    (x : ConsentRecord) (ys : List ConsentRecord)
    → ((first_of (insert_newest x ys) ≡ some x)
        × ((y : ConsentRecord) → first_of ys ≡ some y → y.recorded_at ≤ x.recorded_at))
      ⊎ ((y : ConsentRecord) × (first_of ys ≡ some y)
          × (x.recorded_at ≤ y.recorded_at)
          × (first_of (insert_newest x ys) ≡ some y))
first-insert_newest x [] = inl (refl, λ y e. ground (arith, e))
first-insert_newest x (y ∷ ys) = elim (Bool-cases (leb y.recorded_at x.recorded_at)) [
  | inl older ↦ inl (rw older refl, λ z e. ground (arith, e, older))
  | inr newer ↦ inr (y, refl, ground (arith, newer), rw newer refl)
]

first-newest_none : (rs : List ConsentRecord) → first_of (newest_first rs) ≡ none → rs ≡ []
first-newest_none [] e = refl
first-newest_none (x ∷ rs) e = elim (first-insert_newest x (newest_first rs)) [
  | inl (f, _) ↦ ground (arith, e, f)
  | inr (y, _, _, f) ↦ ground (arith, e, f)
]

NoLaterThan-step :
    (r y : ConsentRecord) (rs : List ConsentRecord)
    → y.recorded_at ≤ r.recorded_at
    → All (NoLaterThan y) rs
    → All (NoLaterThan r) rs
NoLaterThan-step r y rs le all = All-map (NoLaterThan y) (NoLaterThan r) rs (λ x h. omega arith) all

first-newest_first :
    (rs : List ConsentRecord) (r : ConsentRecord)
    → first_of (newest_first rs) ≡ some r
    → Memᴰ r rs × All (NoLaterThan r) rs
first-newest_first [] r e = ground (arith, e)
first-newest_first (x ∷ rs) r e = elim (first-insert_newest x (newest_first rs)) [
  | inl (f, older) ↦
      let same : r ≡ x = ground (arith, e, f) in
      let rest : All (NoLaterThan x) rs = elim (Option-cases (first_of (newest_first rs))) [
        | inl none_there ↦ subst (All (NoLaterThan x)) (sym (first-newest_none rs none_there)) tt
        | inr (y, g) ↦ NoLaterThan-step x y rs (older y g) (first-newest_first rs y g).1
      ] in
      let all : All (NoLaterThan x) (x ∷ rs) = (omega arith, rest) in
      (Memᴰ.head same, subst (λ z. All (NoLaterThan z) (x ∷ rs)) (sym same) all)
  | inr (y, g, le, f) ↦
      let same : r ≡ y = ground (arith, e, f) in
      let (mem, all) = first-newest_first rs y g in
      let every : All (NoLaterThan y) (x ∷ rs) = (le, all) in
      subst (λ z. Memᴰ z (x ∷ rs) × All (NoLaterThan z) (x ∷ rs)) (sym same) (Memᴰ.tail mem, every)
]

select_where_hit :
    (p : ConsentRecord → Bool) (x : ConsentRecord) (rs : List ConsentRecord)
    → p x ≡ true
    → select_where p (x ∷ rs) ≡ x ∷ select_where p rs
select_where_hit p x rs e = rw e refl

select_where_miss :
    (p : ConsentRecord → Bool) (x : ConsentRecord) (rs : List ConsentRecord)
    → p x ≡ false
    → select_where p (x ∷ rs) ≡ select_where p rs
select_where_miss p x rs e = rw e refl

select_where-mem :
    (p : ConsentRecord → Bool) (rs : List ConsentRecord) (r : ConsentRecord)
    → Memᴰ r (select_where p rs)
    → Memᴰ r rs × (p r ≡ true)
select_where-mem p [] r mem = absurd (not-nil mem)
select_where-mem p (x ∷ rs) r mem = elim (Bool-cases (p x)) [
  | inl hit ↦ elim (cases_cons (subst (Memᴰ r) (select_where_hit p x rs hit) mem)) [
    | inl same ↦ (Memᴰ.head same, ap p same ∙ hit)
    | inr rest ↦ let (there, passes) = select_where-mem p rs r rest in (Memᴰ.tail there, passes)
  ]
  | inr miss ↦
      let (there, passes) =
        select_where-mem p rs r (subst (Memᴰ r) (select_where_miss p x rs miss) mem) in
      (Memᴰ.tail there, passes)
]

pub latest_active_lem :
    (voice_id : ℕ) (rs : List ConsentRecord) (r : ConsentRecord)
    → latest_active voice_id rs ≡ some r
    → (Memᴰ r rs)
      × (is_active_for voice_id r ≡ true)
      × All (NoLaterThan r) (select_where (is_active_for voice_id) rs)
unfolding latest_active
latest_active_lem voice_id rs r e =
    let (mem, newest) = first-newest_first (select_where (is_active_for voice_id) rs) r e in
    let (there, passes) = select_where-mem (is_active_for voice_id) rs r mem in
    (there, passes, newest)

record_consent_stored :
    (e : Evidence) (voice_exists : Bool) (id now : ℕ) (rs rs' : List ConsentRecord)
    (r : ConsentRecord)
    → record_consent e voice_exists id now rs ≡ (stored r, rs')
    → (r ≡ new_record e id now) × (rs' ≡ new_record e id now ∷ rs)
unfolding record_consent
record_consent_stored e voice_exists id now rs rs' r f =
    elim (Bool-cases (is_asserted e.consent_kind && is_some e.evidence_uri)) [
      | inl a ↦ ground (arith, f, a)
      | inr a ↦
          elim (Bool-cases (not (is_asserted e.consent_kind) && not (is_some e.evidence_uri))) [
            | inl b ↦ ground (arith, f, a, b)
            | inr b ↦ elim (Bool-cases (voice_exists && passes_checks (new_record e id now))) [
              | inl c ↦ (ground (arith, f, a, b, c), ground (arith, f, a, b, c))
              | inr c ↦ ground (arith, f, a, b, c)
            ]
          ]
    ]

All-mem :
    (P : ConsentRecord → Type 0) (rs : List ConsentRecord) (r : ConsentRecord)
    → All P rs
    → Memᴰ r rs
    → P r
All-mem P [] r all mem = absurd (not-nil mem)
All-mem P (x ∷ rs) r all mem = elim (cases_cons mem) [
  | inl same ↦ subst P (sym same) all.0
  | inr rest ↦ All-mem P rs r all.1 rest
]

first_inserted :
    (x : ConsentRecord) (ys : List ConsentRecord)
    → ((y : ConsentRecord) → first_of ys ≡ some y → y.recorded_at ≤ x.recorded_at)
    → first_of (insert_newest x ys) ≡ some x
first_inserted x [] h = refl
first_inserted x (y ∷ ys) h = ground (arith, h y refl)

latest_active_new :
    (r : ConsentRecord) (rs : List ConsentRecord)
    → is_active_for r.voice_id r ≡ true
    → All (NoLaterThan r) rs
    → latest_active r.voice_id (r ∷ rs) ≡ some r
unfolding latest_active
latest_active_new r rs active past =
    let p = is_active_for r.voice_id in
    let older : (y : ConsentRecord)
        → first_of (newest_first (select_where p rs)) ≡ some y
        → y.recorded_at ≤ r.recorded_at =
      λ y e.
        let (mem, _) = first-newest_first (select_where p rs) y e in
        All-mem (NoLaterThan r) rs y past (select_where-mem p rs y mem).0 in
    ap (λ l. first_of (newest_first l)) (select_where_hit p r rs active)
    ∙ first_inserted r (newest_first (select_where p rs)) older

-- A record that is stored now, with no later one in the table, becomes the one that gates its voice.
pub latest_active-record_consent :
    (e : Evidence) (voice_exists : Bool) (id now : ℕ) (rs rs' : List ConsentRecord)
    (r : ConsentRecord)
    → record_consent e voice_exists id now rs ≡ (stored r, rs')
    → All (λ x. x.recorded_at ≤ now) rs
    → latest_active e.voice_id rs' ≡ some r
latest_active-record_consent e voice_exists id now rs rs' r f past =
    let (same, table) = record_consent_stored e voice_exists id now rs rs' r f in
    rw (same, table) (latest_active_new (new_record e id now) rs (ground arith) past)

revoked_not_active :
    (id at voice_id : ℕ) (reason : Option String) (rs : List ConsentRecord)
    → All
        (λ x. is_active_for voice_id x ≡ true → x.id ≢ id)
        (update_where (has_consent_id id) (revoked reason at) rs)
revoked_not_active id at voice_id reason [] = tt
revoked_not_active id at voice_id reason (x ∷ rs) =
    let rest = revoked_not_active id at voice_id reason rs in
    elim (Bool-cases (x.id == id)) [
      | inl hit ↦ rw hit ((λ act. ground (arith, act)), rest)
      | inr miss ↦ rw miss ((λ act same. ground (arith, miss, same)), rest)
    ]

-- A record that was revoked gates no voice any more.
pub latest_active-revoke :
    (id : ℕ) (reason : Option String) (revoked_at : Option ℕ) (now voice_id : ℕ)
    (rs : List ConsentRecord) (r x : ConsentRecord)
    → (revoke id reason revoked_at now rs).0 ≡ stored r
    → latest_active voice_id (revoke id reason revoked_at now rs).1 ≡ some x
    → x.id ≢ id
unfolding revoke
latest_active-revoke id reason revoked_at now voice_id rs r x done e =
    elim (Option-cases (find (has_consent_id id) rs)) [
      | inl f ↦ ground (arith, done, f)
      | inr (row, f) ↦ elim (Bool-cases (is_some row.revoked_at)) [
        | inl g ↦ ground (arith, done, f, g)
        | inr g ↦ elim (Bool-cases (passes_checks (revoked reason (or_else revoked_at now) row))) [
          | inr h ↦ ground (arith, done, f, g, h)
          | inl h ↦
              let table =
                update_where (has_consent_id id) (revoked reason (or_else revoked_at now)) rs in
              let e' : latest_active voice_id table ≡ some x = ground (arith, e, f, g, h) in
              let (mem, act, _) = latest_active_lem voice_id table x e' in
              All-mem (λ x. is_active_for voice_id x ≡ true → x.id ≢ id) table x
                (revoked_not_active id (or_else revoked_at now) voice_id reason rs) mem act
        ]
      ]
    ]
