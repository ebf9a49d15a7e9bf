-- ===== src/DataDeletion/Closing.antt =====
-- The states of a ticket (src/repos/data_deletion.py).
use Prim.Native.String.{String}
use neuro_voice.Prelude.{
  ℕ, ◌≡◌, ◌≢◌, inl, inr, refl, ◌∙◌, true, Option, none, some, List, [], ◌∷◌, ◌==◌, find,
  update_where, arith, Option-cases, Bool-cases, All, find_passes,
}
use neuro_voice.DataDeletion.{
  Ticket, is_terminal, in_scope, get, Reply, create, transition, mark_in_progress, closed,
  mark_completed, mark_rejected,
}

-- A call on the repository of a scope, at a time.
pub data Call : Type 0 where
  creates : List ℕ → ℕ → Option String → Option String → ℕ → Call
  starts : ℕ → Call
  completes : ℕ → Option String → Option ℕ → Call
  rejects : ℕ → String → Call

pub step : Option ℕ → ℕ → Call → List Ticket → Reply × List Ticket
step scope now (creates slugs actor jurisdiction reason id) tickets =
    create scope slugs actor jurisdiction reason id now tickets
step scope now (starts id) tickets = mark_in_progress scope id tickets
step scope now (completes id notes at) tickets = mark_completed scope id notes at now tickets
step scope now (rejects id reason) tickets = mark_rejected scope id reason tickets

pub run : List (Option ℕ × ℕ × Call) → List Ticket → List Ticket
run [] tickets = tickets
run ((scope, now, c) ∷ cs) tickets = run cs (step scope now c tickets).1

-- The database never gives a new ticket the key of an old one.
abbrev pub IsFresh : ℕ → Call → Type 0
IsFresh id (creates slugs actor jurisdiction reason new) = new ≢ id
IsFresh id (starts other) = Unit {0}
IsFresh id (completes other notes at) = Unit {0}
IsFresh id (rejects other reason) = Unit {0}

find-update_apart :
    (id other : ℕ) (f : Ticket → Ticket) (tickets : List Ticket)
    → other ≢ id
    → ((t : Ticket) → (f t).id ≡ t.id)
    → find (in_scope none id) (update_where (λ u. u.id == other) f tickets)
      ≡ find (in_scope none id) tickets
find-update_apart id other f [] h k = refl
find-update_apart id other f (t ∷ tickets) h k =
    ground (arith, k t, find-update_apart id other f tickets h k)

transition-closed :
    (scope : Option ℕ) (id other : ℕ) (f : Ticket → Ticket) (tickets : List Ticket) (t : Ticket)
    → ((u : Ticket) → (f u).id ≡ u.id)
    → get none id tickets ≡ some t
    → is_terminal t.status ≡ true
    → get none id (transition scope other f tickets).1 ≡ some t
unfolding transition get
transition-closed (some tenant) id other f tickets t k e closed = e
transition-closed none id other f tickets t k e closed =
    elim (Option-cases (get none other tickets)) [
      | inl miss ↦ rw (miss, transition) e
      | inr (u, hit) ↦ elim (Bool-cases (is_terminal u.status)) [
        | inl done ↦ rw (hit, transition) (rw done e)
        | inr opened ↦
            let apart : u.id ≢ id =
              λ same. ground (arith, found_id other tickets u hit, e, hit, closed, opened, same) in
            rw (hit, transition) (rw opened (find-update_apart id u.id f tickets apart k ∙ e))
      ]
    ]
  where
    found_id :
        (o : ℕ) (ts : List Ticket) (u : Ticket)
        → find (in_scope none o) ts ≡ some u
        → in_scope none o u ≡ true
    found_id o ts u h = find_passes (in_scope none o) ts {r = u} h

step-closed :
    (scope : Option ℕ) (now id : ℕ) (c : Call) (tickets : List Ticket) (t : Ticket)
    → IsFresh id c
    → get none id tickets ≡ some t
    → is_terminal t.status ≡ true
    → get none id (step scope now c tickets).1 ≡ some t
unfolding step create mark_in_progress mark_completed mark_rejected get
step-closed none now id (creates slugs actor j r new) tickets t h e closed = e
step-closed (some tenant) now id (creates slugs actor j r new) tickets t h e closed =
    ground (arith, h, e)
step-closed scope now id (starts other) tickets t h e closed =
    transition-closed scope id other _ tickets t (λ u. refl) e closed
step-closed scope now id (completes other notes at) tickets t h e closed =
    transition-closed scope id other _ tickets t (λ u. refl) e closed
step-closed scope now id (rejects other reason) tickets t h e closed =
    transition-closed scope id other _ tickets t (λ u. refl) e closed

-- A ticket that is completed or rejected is final: no sequence of calls, by its tenant, by another or
-- by the operator, changes it. The calls do not create a ticket of the same key.
pub run-closed :
    (id : ℕ) (cs : List (Option ℕ × ℕ × Call)) (tickets : List Ticket) (t : Ticket)
    → All (λ (c : Option ℕ × ℕ × Call). IsFresh id c.2) cs
    → get none id tickets ≡ some t
    → is_terminal t.status ≡ true
    → get none id (run cs tickets) ≡ some t
unfolding run
run-closed id [] tickets t a e closed = e
run-closed id ((scope, now, c) ∷ cs) tickets t a e closed =
    run-closed id cs (step scope now c tickets).1 t a.1
      (step-closed scope now id c tickets t a.0 e closed) closed
