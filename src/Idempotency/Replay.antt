-- ===== src/Idempotency/Replay.antt =====
-- Replay, conflict and the race of two callers in `reserve_or_get` (src/repos/idempotency.py).
use neuro_voice.Prelude.{
  ℕ, ◌<◌, ◌≡◌, refl, ◌↔◌, true, Option, none, some, List, ◌==◌, if◌then◌else◌, is_some, find, arith,
  find-update_key,
}
use neuro_voice.Idempotency.{
  Row, Table, Request, replay, conflict, integrity_error, Moment, has_key, is_visible, get, reserve,
  reserve_or_get, ttl_or_default, complete, completed, AlignmentEntry, get-match, fail,
  marked_failed,
}

ttl_pos : (t : Option ℕ) → 0 < ttl_or_default t
ttl_pos none = omega arith
ttl_pos (some t) = ground arith

-- What a successful reservation leaves behind: a row that `get` returns until it expires.
pub get-reserve :
    (tenant_id now later : ℕ) (q : Request) (table table' : Table) (row : Row)
    → reserve tenant_id q now table ≡ some (row, table')
    → later < row.expires_at
    → get tenant_id q.request_id later table' ≡ some row
unfolding reserve get
get-reserve tenant_id now later q table table' row e h = ground arith

-- A reservation is inserted once: until it expires a second call with the same key returns the
-- same row if the body hash is the same, is a conflict otherwise, and changes nothing.
pub reserve_or_get_second :
    (tenant_id now later : ℕ) (q second : Request) (table table' : Table) (row : Row)
    (m₂ m₃ m₄ : Moment)
    → reserve tenant_id q now table ≡ some (row, table')
    → second.request_id ≡ q.request_id
    → later < row.expires_at
    → reserve_or_get tenant_id second (record { now = later; table = table' }) m₂ m₃ m₄
      ≡ (if second.request_hash == q.request_hash then replay row else conflict row, table')
unfolding reserve_or_get reserve get
reserve_or_get_second tenant_id now later q second table table' row m₂ m₃ m₄ e k h = ground arith

-- Two callers of one tenant race on a key that neither has seen. The loser, whose INSERT and second
-- read come after the winner's commit, gets the winner's row if the body hash is the same and a
-- conflict otherwise; it inserts no row.
pub reserve_or_get_race :
    (tenant_id now : ℕ) (q loser : Request) (table table' : Table) (row : Row)
    (upfront again : Moment) (insert_now reread_now : ℕ)
    → reserve tenant_id q now table ≡ some (row, table')
    → loser.request_id ≡ q.request_id
    → get tenant_id q.request_id upfront.now upfront.table ≡ none
    → reread_now < row.expires_at
    → reserve_or_get tenant_id loser upfront
        (record { now = insert_now; table = table' })
        (record { now = reread_now; table = table' })
        again
      ≡ (if loser.request_hash == q.request_hash then replay row else conflict row, table')
unfolding reserve_or_get reserve get
reserve_or_get_race tenant_id now q loser table table' row upfront again i r e k miss h =
    rw k (ground (arith, get-reserve tenant_id now r q table table' row e h))

abbrev pub still : ℕ → Table → Moment
still now table = record { now = now; table = table }

-- With no other session at work the call fails with an IntegrityError exactly when the table has a
-- row of that request id which the tenant's `get` does not return: one that has expired and is not
-- yet purged, or one of another tenant.
pub reserve_or_get_raises :
    (tenant_id now : ℕ) (q : Request) (table : Table)
    → let m = still now table in
      (reserve_or_get tenant_id q m m m m ≡ (integrity_error, table)) ↔ (
        (get tenant_id q.request_id now table ≡ none)
        × (is_some (find (has_key q.request_id) table) ≡ true))
unfolding reserve_or_get reserve
reserve_or_get_raises tenant_id now q table = (λ e. ground arith, λ h. ground (arith, h.0, h.1))

-- `complete` then `get`: the row is complete, carries the URI, and is otherwise the row it was.
pub get-complete :
    (tenant_id request_id uri now : ℕ) (alignment : Option (List AlignmentEntry)) (table : Table)
    (row : Row)
    → get tenant_id request_id now table ≡ some row
    → get tenant_id request_id now (complete tenant_id request_id (some uri) alignment now table)
      ≡ some (completed (some uri) alignment row)
unfolding complete get
get-complete tenant_id request_id uri now alignment table row e =
    rw (e, complete)
      (find-update_key (is_visible tenant_id request_id now) (has_key row.request_id)
        (completed (some uri) alignment) table {r = row}
        (λ a h. ground (arith, get-match tenant_id request_id now table row e)) (λ a. refl) e)

-- `fail` then `get`: the row is failed, whatever its status was.
pub get-fail :
    (tenant_id request_id now : ℕ) (table : Table) (row : Row)
    → get tenant_id request_id now table ≡ some row
    → get tenant_id request_id now (fail tenant_id request_id now table) ≡ some (marked_failed row)
unfolding fail get
get-fail tenant_id request_id now table row e =
    rw (e, fail)
      (find-update_key (is_visible tenant_id request_id now) (has_key row.request_id) marked_failed
        table {r = row} (λ a h. ground (arith, get-match tenant_id request_id now table row e))
        (λ a. refl) e)
