-- ===== src/DataDeletion.antt =====
-- `DataDeletionRequestRepo` of src/repos/data_deletion.py: the tickets of erasure requests. The
-- scope of the repository is an argument: a tenant, or none for the operator.
pub mod Closing
pub mod Inbox
mod Tests
use Prim.Native.String.{String}
use neuro_voice.Prelude.{
  ℕ, Bool, true, false, ◌&&◌, ◌||◌, Option, none, some, List, [], ◌∷◌, leb, ◌==◌, if◌then◌else◌,
  is_some, or_else, find, update_where, select_where,
}

pub data Status : Type 0 where
  pending in_progress completed rejected : Status

-- `DataDeletionRequest`; a jurisdiction and a slug are only stored.
pub record Ticket : Type 0 where
  pub id : ℕ
  pub tenant_id : ℕ
  pub voice_slugs : List ℕ
  pub jurisdiction : Option String
  pub status : Status
  pub requested_at : ℕ
  pub requested_by_actor_id : ℕ
  pub reason : Option String
  pub completed_at : Option ℕ
  pub completion_notes : Option String

-- `_TERMINAL_STATUSES`
abbrev pub is_terminal : Status → Bool
is_terminal s = elim s [ completed ↦ true | rejected ↦ true | _ ↦ false ]

abbrev pub is_open : Ticket → Bool
is_open t = elim t.status [ pending ↦ true | in_progress ↦ true | _ ↦ false ]

-- The WHERE clause of `get`.
abbrev pub in_scope : Option ℕ → ℕ → Ticket → Bool
in_scope none id t = t.id == id
in_scope (some tenant) id t = t.id == id && t.tenant_id == tenant

pub get : Option ℕ → ℕ → List Ticket → Option Ticket
get scope id = find (in_scope scope id)

-- `wrong_scope` is the RuntimeError, `missing` is None.
pub data Reply : Type 0 where
  wrong_scope missing : Reply
  found : Ticket → Reply

-- The key and the time of the new row are the database's.
unfoldable pub create :
    Option ℕ
    → List ℕ
    → ℕ
    → Option String
    → Option String
    → ℕ
    → ℕ
    → List Ticket
    → Reply × List Ticket
create none slugs actor jurisdiction reason id now tickets = (wrong_scope, tickets)
create (some tenant) slugs actor jurisdiction reason id now tickets =
    let t : Ticket = record {
      id = id;
      tenant_id = tenant;
      voice_slugs = slugs;
      jurisdiction = jurisdiction;
      status = pending;
      requested_at = now;
      requested_by_actor_id = actor;
      reason = reason;
      completed_at = none;
      completion_notes = none;
    } in
    (found t, t ∷ tickets)

-- The operator's transitions: a ticket that is closed is returned as it is.
pub transition : Option ℕ → ℕ → (Ticket → Ticket) → List Ticket → Reply × List Ticket
unfolding get
transition (some tenant) id f tickets = (wrong_scope, tickets)
transition none id f tickets = elim (get none id tickets) [
  | none ↦ (missing, tickets)
  | some t ↦
      if is_terminal t.status
      then (found t, tickets)
      else (found (f t), update_where (λ u. u.id == t.id) f tickets)
]

abbrev pub started : Ticket → Ticket
started t = record t { status = in_progress }

pub mark_in_progress : Option ℕ → ℕ → List Ticket → Reply × List Ticket
unfolding transition
mark_in_progress scope id = transition scope id started

abbrev pub keep_notes : Option String → Option String → Option String
keep_notes none old = old
keep_notes (some new) old = some new

abbrev pub closed : Option String → Option ℕ → ℕ → Ticket → Ticket
closed notes completed_at now t = record t {
  status = completed;
  completed_at = some (or_else completed_at now);
  completion_notes = keep_notes notes t.completion_notes;
}

pub mark_completed : Option ℕ → ℕ → Option String → Option ℕ → ℕ → List Ticket → Reply × List Ticket
unfolding transition
mark_completed scope id notes completed_at now = transition scope id (closed notes completed_at now)

abbrev pub declined : String → Ticket → Ticket
declined reason t = record t { status = rejected; completion_notes = some reason }

pub mark_rejected : Option ℕ → ℕ → String → List Ticket → Reply × List Ticket
unfolding transition
mark_rejected scope id reason = transition scope id (declined reason)
