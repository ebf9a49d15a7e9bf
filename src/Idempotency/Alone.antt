-- ===== src/Idempotency/Alone.antt =====
-- `reserve_or_get` and `delete` of src/repos/idempotency.py with no other session at work.
use neuro_voice.Prelude.{
  ℕ, ◌≡◌, ◌≢◌, inl, inr, refl, none, some, [], ◌∷◌, find, delete_where, arith, Option-cases,
}
use neuro_voice.Idempotency.{
  Row, Table, Request, Moment, has_key, new_row, get, reserve, reserve_or_get, is_owned_key, delete,
  reserved, classify, integrity_error,
}
use neuro_voice.Idempotency.Replay.{still}

pub reserve_or_get_fresh :
    (tenant_id now : ℕ) (q : Request) (table table' : Table) (row : Row)
    → get tenant_id q.request_id now table ≡ none
    → reserve tenant_id q now table ≡ some (row, table')
    → reserve_or_get tenant_id q
        (still now table)
        (still now table)
        (still now table)
        (still now table)
      ≡ (reserved row, table')
unfolding reserve_or_get
reserve_or_get_fresh tenant_id now q table table' row miss r = ground (arith, miss, r)

pub reserve_or_get_taken :
    (tenant_id now : ℕ) (q : Request) (table : Table)
    → get tenant_id q.request_id now table ≡ none
    → reserve tenant_id q now table ≡ none
    → reserve_or_get tenant_id q
        (still now table)
        (still now table)
        (still now table)
        (still now table)
      ≡ (integrity_error, table)
unfolding reserve_or_get
reserve_or_get_taken tenant_id now q table miss r = ground (arith, miss, r)

-- What the first read finds is classified, whatever the other statements see.
pub reserve_or_get_found :
    (tenant_id : ℕ) (q : Request) (upfront insert reread again : Moment) (row : Row)
    → get tenant_id q.request_id upfront.now upfront.table ≡ some row
    → reserve_or_get tenant_id q upfront insert reread again ≡ (classify q row, upfront.table)
unfolding reserve_or_get
reserve_or_get_found tenant_id q upfront insert reread again row hit = ground (arith, hit)

delete_none :
    (tenant_id request_id : ℕ) (table : Table)
    → find (has_key request_id) table ≡ none
    → delete_where (is_owned_key tenant_id request_id) table ≡ table
delete_none tenant_id request_id [] e = refl
delete_none tenant_id request_id (r ∷ table) e =
    ground (arith, e, delete_none tenant_id request_id table)

-- The deletion of a row that was just reserved gives the table before.
pub delete-reserve :
    (tenant_id now : ℕ) (q : Request) (table table' : Table) (row : Row)
    → reserve tenant_id q now table ≡ some (row, table')
    → (delete tenant_id q.request_id table').1 ≡ table
unfolding reserve delete
delete-reserve tenant_id now q table table' row e =
    elim (Option-cases (find (has_key q.request_id) table)) [
      | inr (old, f) ↦ ground (arith, e, f)
      | inl f ↦
          let same : table' ≡ new_row tenant_id q now ∷ table = ground (arith, e, f) in
          rw same (ground (arith, delete_none tenant_id q.request_id table f))
    ]

pub reserve_row :
    (tenant_id now : ℕ) (q : Request) (table table' : Table) (row : Row)
    → reserve tenant_id q now table ≡ some (row, table')
    → row ≡ new_row tenant_id q now
unfolding reserve
reserve_row tenant_id now q table table' row e =
    elim (Option-cases (find (has_key q.request_id) table)) [
      | inr (old, f) ↦ ground (arith, e, f)
      | inl f ↦ ground (arith, e, f)
    ]

find_other :
    (tenant_id request_id now : ℕ) (table : Table)
    → find (has_key request_id) table ≡ none
    → get tenant_id request_id now table ≡ none
unfolding get
find_other tenant_id request_id now [] e = refl
find_other tenant_id request_id now (r ∷ table) e =
    ground (arith, e, find_other tenant_id request_id now table)

-- A row that was just reserved is hidden from the other tenants.
pub get_other_tenant :
    (tenant_id other now later : ℕ) (q : Request) (table table' : Table) (row : Row)
    → reserve tenant_id q now table ≡ some (row, table')
    → other ≢ tenant_id
    → get other q.request_id later table' ≡ none
unfolding reserve get
get_other_tenant tenant_id other now later q table table' row e differ =
    elim (Option-cases (find (has_key q.request_id) table)) [
      | inr (old, f) ↦ ground (arith, e, f)
      | inl f ↦
          let same : table' ≡ new_row tenant_id q now ∷ table = ground (arith, e, f) in
          rw same (ground (arith, differ, find_other other q.request_id later table f))
    ]
