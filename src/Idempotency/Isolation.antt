-- ===== src/Idempotency/Isolation.antt =====
-- What the operations of src/repos/idempotency.py keep: the primary key, the rows of every other
-- tenant, and the rows that are still visible when expired ones are purged.
use neuro_voice.Prelude.{
  ℕ, ◌≤◌, ◌≡◌, refl, inl, inr, ◌≢◌, Bool, Option, List, ◌==◌, arith, Option-cases, count_where,
  count-update_same, count-delete-le, find-none_count, select_where, select-update_key,
  select-delete_other, find-delete_other,
}
use neuro_voice.Idempotency.{
  Row, AlignmentEntry, Table, Request, Moment, has_key, is_visible, is_owned_key, is_purgeable, get,
  reserve, reserve_or_get, complete, completed, fail, marked_failed, delete, purge_expired,
  get-match,
}

-- At most one row has a given request id.
abbrev pub UniqueKeys : Table → Type 0
UniqueKeys table = (k : ℕ) → count_where (has_key k) table ≤ 1

-- A call on the repository of one tenant, at a time. A reservation runs with no other session.
pub data Call : Type 0 where
  reserves : Request → Call
  completes : ℕ → Option ℕ → Option (List AlignmentEntry) → Call
  fails deletes : ℕ → Call
  purges : Call

pub step : ℕ → ℕ → Call → Table → Table
step tenant_id now (reserves q) table =
    let m : Moment = record { now = now; table = table } in (reserve_or_get tenant_id q m m m m).1
step tenant_id now (completes k uri alignment) table = complete tenant_id k uri alignment now table
step tenant_id now (fails k) table = fail tenant_id k now table
step tenant_id now (deletes k) table = (delete tenant_id k table).1
step tenant_id now purges table = (purge_expired tenant_id now table).1

reserve_or_get-UniqueKeys :
    (tenant_id : ℕ) (q : Request) (m : Moment)
    → UniqueKeys m.table
    → UniqueKeys (reserve_or_get tenant_id q m m m m).1
unfolding reserve_or_get reserve
reserve_or_get-UniqueKeys tenant_id q m h k =
    ground (arith, h k, h q.request_id, find-none_count (has_key q.request_id) m.table)

complete-UniqueKeys :
    (tenant_id j now : ℕ) (uri : Option ℕ) (alignment : Option (List AlignmentEntry))
    (table : Table)
    → UniqueKeys table
    → UniqueKeys (complete tenant_id j uri alignment now table)
unfolding complete
complete-UniqueKeys tenant_id j now uri alignment table h k =
    elim (Option-cases (get tenant_id j now table)) [
      | inl e ↦ rw (e, complete) (h k)
      | inr (row, e) ↦
          rw (e, complete)
            (rw
              (count-update_same (has_key row.request_id) (has_key k) (completed uri alignment)
                table (λ a. refl))
              (h k))
    ]

fail-UniqueKeys :
    (tenant_id j now : ℕ) (table : Table)
    → UniqueKeys table
    → UniqueKeys (fail tenant_id j now table)
unfolding fail
fail-UniqueKeys tenant_id j now table h k = elim (Option-cases (get tenant_id j now table)) [
  | inl e ↦ rw (e, fail) (h k)
  | inr (row, e) ↦
      rw (e, fail)
        (rw (count-update_same (has_key row.request_id) (has_key k) marked_failed table (λ a. refl))
          (h k))
]

-- Every call keeps request ids unique in the table.
pub step-UniqueKeys :
    (tenant_id now : ℕ) (c : Call) (table : Table)
    → UniqueKeys table
    → UniqueKeys (step tenant_id now c table)
unfolding step delete purge_expired
step-UniqueKeys tenant_id now (reserves q) table h = reserve_or_get-UniqueKeys tenant_id q _ h
step-UniqueKeys tenant_id now (completes k uri alignment) table h =
    complete-UniqueKeys tenant_id k now uri alignment table h
step-UniqueKeys tenant_id now (fails k) table h = fail-UniqueKeys tenant_id k now table h
step-UniqueKeys tenant_id now (deletes j) table h =
    λ k. omega (arith, h k, count-delete-le (is_owned_key tenant_id j) (has_key k) table)
step-UniqueKeys tenant_id now purges table h =
    λ k. omega (arith, h k, count-delete-le (is_purgeable tenant_id now) (has_key k) table)

abbrev pub is_of : ℕ → Row → Bool
is_of tenant_id r = r.tenant_id == tenant_id

-- A call on one tenant's repository neither adds, changes, removes nor reorders a row of another
-- tenant, in a table where request ids are unique.
pub step_isolated :
    (tenant_id other now : ℕ) (c : Call) (table : Table)
    → tenant_id ≢ other
    → UniqueKeys table
    → select_where (is_of other) (step tenant_id now c table) ≡ select_where (is_of other) table
unfolding step delete purge_expired reserve_or_get reserve complete fail get
step_isolated tenant_id other now (reserves q) table h u = ground arith
step_isolated tenant_id other now (completes k uri alignment) table h u =
    elim (Option-cases (get tenant_id k now table)) [
      | inl e ↦ rw (e, complete) refl
      | inr (row, e) ↦
          rw (e, complete)
            (select-update_key (is_visible tenant_id k now) (has_key row.request_id) (is_of other)
              (completed uri alignment) table {r = row}
              (λ a p. ground (arith, get-match tenant_id k now table row e))
              (λ a p. (ground arith, ground arith)) e (u row.request_id))
    ]
step_isolated tenant_id other now (fails k) table h u =
    elim (Option-cases (get tenant_id k now table)) [
      | inl e ↦ rw (e, fail) refl
      | inr (row, e) ↦
          rw (e, fail)
            (select-update_key (is_visible tenant_id k now) (has_key row.request_id) (is_of other)
              marked_failed table {r = row}
              (λ a p. ground (arith, get-match tenant_id k now table row e))
              (λ a p. (ground arith, ground arith)) e (u row.request_id))
    ]
step_isolated tenant_id other now (deletes k) table h u =
    select-delete_other _ _ table (λ a p. ground arith)
step_isolated tenant_id other now purges table h u =
    select-delete_other _ _ table (λ a p. ground arith)

-- Purging loses nothing that a tenant, the purging one included, could still get then or later.
pub get-purge_expired :
    (tenant_id now reader request_id later : ℕ) (table : Table)
    → now ≤ later
    → get reader request_id later (purge_expired tenant_id now table).1
      ≡ get reader request_id later table
unfolding get purge_expired
get-purge_expired tenant_id now reader request_id later table h =
    find-delete_other _ _ table (λ a p. ground arith)
