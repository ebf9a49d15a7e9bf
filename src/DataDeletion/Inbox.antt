-- ===== src/DataDeletion/Inbox.antt =====
-- The listings of src/repos/data_deletion.py. none is the RuntimeError of a repository of the wrong
-- scope; what equal times leave open is the order of the table.
use neuro_voice.Prelude.{
  ℕ, ◌≡◌, refl, Bool, ◌&&◌, Option, none, some, List, leb, ◌==◌, select_where, count_where, arith,
  ◌∙◌,
}
use neuro_voice.Prelude.Sorted.{
  order_by, IsOrdered, order_by-IsOrdered, count-order_by, count-select_where,
}
use neuro_voice.DataDeletion.{Ticket, is_open}

abbrev pub oldest_first : Ticket → Ticket → Bool
oldest_first t u = leb t.requested_at u.requested_at

abbrev pub latest_first : Ticket → Ticket → Bool
latest_first t u = leb u.requested_at t.requested_at

pub list_for_tenant : Option ℕ → List Ticket → Option (List Ticket)
list_for_tenant none tickets = none
list_for_tenant (some tenant) tickets =
    some (order_by latest_first (select_where (λ t. t.tenant_id == tenant) tickets))

pub list_pending : Option ℕ → List Ticket → Option (List Ticket)
list_pending (some tenant) tickets = none
list_pending none tickets = some (order_by oldest_first (select_where is_open tickets))

-- A tenant's listing holds the tickets of that tenant and no other, each as often as the table does,
-- the newest first; a repository without a tenant has no such listing.
pub list_for_tenant_lem :
    (tenant : ℕ) (tickets : List Ticket)
    → (l : List Ticket) × (list_for_tenant (some tenant) tickets ≡ some l)
      × IsOrdered latest_first l
      × ((q : Ticket → Bool)
          → count_where q l ≡ count_where (λ t. q t && (t.tenant_id == tenant)) tickets)
      × (list_for_tenant none tickets ≡ none)
unfolding list_for_tenant
list_for_tenant_lem tenant tickets =
    let l = select_where (λ t. t.tenant_id == tenant) tickets in
    (
      order_by latest_first l,
      refl,
      order_by-IsOrdered latest_first (λ t u e. ground (arith, e))
          (λ t u v e f. ground (arith, e, f)) l,
      (λ q.
          count-order_by latest_first q l
          ∙ count-select_where q (λ t. t.tenant_id == tenant) tickets),
      refl,
    )
