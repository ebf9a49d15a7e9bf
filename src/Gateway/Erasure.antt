-- ===== src/Gateway/Erasure.antt =====
-- `create_data_deletion_request` and `delete_voice` of src/server/main.py. The audit rows are left
-- out, and a 404 is raised before anything is written.
pub mod Resolved
pub mod Covered
pub mod Stopped
use Prim.Native.String.{String}
use neuro_voice.Prelude.{
  ℕ, zero, suc, ◌+◌, Bool, true, false, ◌&&◌, not, Option, none, some, List, [], ◌∷◌, map, ◌==◌,
  if◌then◌else◌, is_some, select_where, update_where,
}
use neuro_voice.Voice.{Voice, Grant, Reply, get_owned, list_accessible, soft_delete, updated}
use neuro_voice.Voice.Lifecycle.{schedule_purge, default_purge_delay_days}
use neuro_voice.DataDeletion.{Ticket, Status, create, found, completed, in_progress}

-- The tables that the route reads and writes.
pub record Records : Type 0 where
  pub voices : List Voice
  pub grants : List Grant
  pub tickets : List Ticket

-- `get_owned` for every slug; none is the 404.
pub resolve_named : ℕ → List ℕ → List Voice → Option (List Voice)
resolve_named tenant_id [] voices = some []
resolve_named tenant_id (slug ∷ slugs) voices =
    let rest = resolve_named tenant_id slugs voices in
    elim (get_owned tenant_id slug voices) [
      | none ↦ none
      | some v ↦ elim rest [ none ↦ none | some vs ↦ some (v ∷ vs) ]
    ]

abbrev pub is_unpurged_own : ℕ → Voice → Bool
is_unpurged_own tenant_id v = v.owner_tenant_id == tenant_id && not (is_some v.purged_at)

-- No slugs stand for every voice that the tenant owns, as far as the listing shows it.
unfoldable pub resolve : ℕ → List ℕ → List Grant → List Voice → Option (List Voice)
unfolding resolve_named
resolve tenant_id [] grants voices =
    some (select_where (is_unpurged_own tenant_id) (list_accessible tenant_id grants false voices))
resolve tenant_id (slug ∷ slugs) grants voices = resolve_named tenant_id (slug ∷ slugs) voices

-- The loop: the count of the voices that are no tombstones, and the table.
pub schedule_all : ℕ → List Voice → List Voice → ℕ × List Voice
schedule_all now [] voices = (0, voices)
schedule_all now (v ∷ vs) voices =
    if is_some v.purged_at
    then schedule_all now vs voices
    else let rest =
        schedule_all now vs (schedule_purge v.id default_purge_delay_days now voices).1 in
      (suc rest.0, rest.1)

-- What the route makes of the new ticket.
abbrev pub settled : ℕ → ℕ → Ticket → Ticket
settled pending_count now t =
    if pending_count == 0
    then record t {
      status = completed;
      completed_at = some now;
      completion_notes = some "no synthesizable voices remained for this request";
    }
    else record t { status = in_progress }

pub data ErasureReply : Type 0 where
  not_found_404 server_error : ErasureReply
  created : Ticket → ErasureReply

-- `actor` is the api key of the caller; `id` and `now` are the database's.
pub file_ticket :
    ℕ → List ℕ → ℕ → Option String → Option String → ℕ → ℕ → ℕ → Records → ErasureReply × Records
file_ticket tenant_id slugs actor jurisdiction reason id now pending_count s =
    let (reply, tickets) =
      create (some tenant_id) slugs actor jurisdiction reason id now s.tickets in
    elim reply [
      | found t ↦ (
        created (settled pending_count now t),
        record s { tickets = update_where (λ u. u.id == t.id) (settled pending_count now) tickets },
      )
      | _ ↦ (server_error, s)
    ]

unfoldable pub create_data_deletion_request :
    ℕ → List ℕ → ℕ → Option String → Option String → ℕ → ℕ → Records → ErasureReply × Records
unfolding resolve schedule_all file_ticket
create_data_deletion_request tenant_id slugs actor jurisdiction reason id now s =
    elim (resolve tenant_id slugs s.grants s.voices) [
      | none ↦ (not_found_404, s)
      | some vs ↦
          let (pending_count, voices) = schedule_all now vs s.voices in
          file_ticket tenant_id (map (λ v. v.voice_id) vs) actor jurisdiction reason id now
            pending_count (record s { voices = voices })
    ]

-- `delete_voice`: a slug that `validate_voice_id` refuses is none.
pub data DeleteReply : Type 0 where
  bad_voice_id_400 unknown_voice_404 : DeleteReply
  deleted : ℕ → DeleteReply

pub delete_voice : ℕ → Option ℕ → ℕ → List Voice → DeleteReply × List Voice
delete_voice tenant_id none now voices = (bad_voice_id_400, voices)
delete_voice tenant_id (some slug) now voices =
    let (reply, after) = soft_delete tenant_id slug now voices in
    elim reply [ updated v ↦ (deleted slug, after) | _ ↦ (unknown_voice_404, voices) ]
