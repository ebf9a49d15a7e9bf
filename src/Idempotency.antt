-- ===== src/Idempotency.antt =====
-- `IdempotencyRepo` of src/repos/idempotency.py: Stripe-style guarded reservation of a request id.
-- The table is a list of rows, the tenant of the repository and the clock are arguments. An
-- IntegrityError is the value `none` of an insert.
mod Defs
pub mod Replay
pub mod Isolation
pub mod Alone
mod Tests
pub use Defs.{Row, Status, AlignmentEntry, processing, failed}
use neuro_voice.Prelude.{
  ℕ, ◌+◌, ◌<◌, ◌≡◌, find_passes, arith, Bool, true, false, ◌&&◌, Option, none, some, List, [], ◌∷◌,
  ltb, ◌==◌, if◌then◌else◌, is_some, find, update_where, delete_where, count_where,
}

-- `DEFAULT_TTL = timedelta(hours=24)`, in milliseconds.
abbrev pub default_ttl : ℕ
default_ttl = 86_400_000

abbrev pub Table : Type 0
Table = List Row

-- The primary key.
abbrev pub has_key : ℕ → Row → Bool
has_key request_id r = r.request_id == request_id

-- The WHERE clause of `get`.
abbrev pub is_visible : ℕ → ℕ → ℕ → Row → Bool
is_visible tenant_id request_id now r =
    r.request_id == request_id && r.tenant_id == tenant_id && ltb now r.expires_at

unfoldable pub get : ℕ → ℕ → ℕ → Table → Option Row
get tenant_id request_id now = find (is_visible tenant_id request_id now)

pub get-match :
    (tenant_id request_id now : ℕ) (table : Table) (row : Row)
    → get tenant_id request_id now table ≡ some row
    → (row.request_id ≡ request_id) × (row.tenant_id ≡ tenant_id) × (now < row.expires_at)
unfolding get
get-match tenant_id request_id now table row e =
    ground (arith, find_passes (is_visible tenant_id request_id now) table {r = row} e)

-- The arguments of `reserve` and `reserve_or_get`.
pub record Request : Type 0 where
  pub request_id : ℕ
  pub api_key_id : ℕ
  pub request_hash : ℕ
  pub ttl : Option ℕ

-- `ttl or self.DEFAULT_TTL`: a zero timedelta is false too.
abbrev pub ttl_or_default : Option ℕ → ℕ
ttl_or_default none = default_ttl
ttl_or_default (some t) = if t == 0 then default_ttl else t

abbrev pub new_row : ℕ → Request → ℕ → Row
new_row tenant_id q now = record {
  request_id = q.request_id;
  tenant_id = tenant_id;
  api_key_id = q.api_key_id;
  request_hash = q.request_hash;
  response_uri = none;
  status = processing;
  created_at = now;
  expires_at = now + ttl_or_default q.ttl;
  sentence_alignment = none;
}

-- The INSERT violates the primary key, whatever tenant holds the row and however old it is.
unfoldable pub reserve : ℕ → Request → ℕ → Table → Option (Row × Table)
reserve tenant_id q now table =
    if is_some (find (has_key q.request_id) table)
    then none
    else some (new_row tenant_id q now, new_row tenant_id q now ∷ table)

pub data Reply : Type 0 where
  reserved replay conflict : Row → Reply
  integrity_error : Reply

-- What a statement of the coroutine sees: other sessions commit between two statements.
pub record Moment : Type 0 where
  pub now : ℕ
  pub table : Table

abbrev pub classify : Request → Row → Reply
classify q row = if row.request_hash == q.request_hash then replay row else conflict row

pub reserve_again : ℕ → Request → Moment → Reply × Table
reserve_again tenant_id q m = elim (reserve tenant_id q m.now m.table) [
  | none ↦ (integrity_error, m.table)
  | some (row, table) ↦ (reserved row, table)
]

-- The `except IntegrityError` block.
pub after_race : ℕ → Request → Moment → Moment → Reply × Table
unfolding reserve_again
after_race tenant_id q reread again = elim (get tenant_id q.request_id reread.now reread.table) [
  | none ↦ reserve_again tenant_id q again
  | some winner ↦ (classify q winner, reread.table)
]

unfoldable pub reserve_or_get : ℕ → Request → Moment → Moment → Moment → Moment → Reply × Table
unfolding after_race
reserve_or_get tenant_id q upfront insert reread again =
    elim (get tenant_id q.request_id upfront.now upfront.table) [
      | some existing ↦ (classify q existing, upfront.table)
      | none ↦ elim (reserve tenant_id q insert.now insert.table) [
        | none ↦ after_race tenant_id q reread again
        | some (row, table) ↦ (reserved row, table)
      ]
    ]

abbrev pub is_owned_key : ℕ → ℕ → Row → Bool
is_owned_key tenant_id request_id r = r.request_id == request_id && r.tenant_id == tenant_id

-- The row count that `delete` returns comes first.
unfoldable pub delete : ℕ → ℕ → Table → ℕ × Table
delete tenant_id request_id table = (
  count_where (is_owned_key tenant_id request_id) table,
  delete_where (is_owned_key tenant_id request_id) table,
)

abbrev pub keep_or {ℓ} : {A : Type ℓ} → Option A → Option A → Option A
keep_or none old = old
keep_or (some new) old = some new

abbrev pub completed : Option ℕ → Option (List AlignmentEntry) → Row → Row
completed response_uri alignment r = record r {
  status = Status.complete;
  response_uri = keep_or response_uri r.response_uri;
  sentence_alignment = keep_or alignment r.sentence_alignment;
}

-- The row that `get` returned is flushed by its primary key.
unfoldable pub complete : ℕ → ℕ → Option ℕ → Option (List AlignmentEntry) → ℕ → Table → Table
complete tenant_id request_id response_uri alignment now table =
    elim (get tenant_id request_id now table) [
      | none ↦ table
      | some row ↦ update_where (has_key row.request_id) (completed response_uri alignment) table
    ]

abbrev pub marked_failed : Row → Row
marked_failed r = record r { status = failed }

unfoldable pub fail : ℕ → ℕ → ℕ → Table → Table
fail tenant_id request_id now table = elim (get tenant_id request_id now table) [
  | none ↦ table
  | some row ↦ update_where (has_key row.request_id) marked_failed table
]

abbrev pub is_purgeable : ℕ → ℕ → Row → Bool
is_purgeable tenant_id now r = r.tenant_id == tenant_id && ltb r.expires_at now

pub purge_expired : ℕ → ℕ → Table → ℕ × Table
purge_expired tenant_id now table = (
  count_where (is_purgeable tenant_id now) table,
  delete_where (is_purgeable tenant_id now) table,
)
