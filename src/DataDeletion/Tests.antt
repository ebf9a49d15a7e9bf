-- ===== src/DataDeletion/Tests.antt =====
-- src/repos/data_deletion.py with a ticket that was rejected.
use neuro_voice.Prelude.{ℕ, ◌≡◌, ◌≢◌, refl, Option, none, some, List, [], ◌∷◌, arith, All}
use neuro_voice.DataDeletion.{Ticket, rejected, get}
use neuro_voice.DataDeletion.Closing.{Call, creates, starts, completes, IsFresh, run, run-closed}

abbrev ticket : Ticket
ticket = record {
  id = 1;
  tenant_id = 4;
  voice_slugs = 70 ∷ [];
  jurisdiction = some "TR";
  status = rejected;
  requested_at = 10;
  requested_by_actor_id = 2;
  reason = none;
  completed_at = none;
  completion_notes = some "legal hold";
}

-- The tenant files another request, and the operator tries to reopen and to close the first.
abbrev calls : List (Option ℕ × ℕ × Call)
calls =
    (some 4, 20, creates [] 2 none none 2)
    ∷ (none, 30, starts 1)
    ∷ (none, 40, completes 1 none none)
    ∷ []

fresh : All (λ (c : Option ℕ × ℕ × Call). IsFresh 1 c.2) calls
fresh = (two, (tt, (tt, tt)))
  where
    two : ◌≢◌ {A = ℕ} 2 1
    two = omega arith

filed : get none 1 (ticket ∷ []) ≡ some ticket
unfolding get
filed = refl

run-closed_example : get none 1 (run calls (ticket ∷ [])) ≡ some ticket
run-closed_example = run-closed 1 calls (ticket ∷ []) ticket fresh filed refl
