-- ===== src/Voice/Access/Granted.antt =====
-- What granting and revoking change (src/repos/voice_access.py).
use Prim.Native.String.{String}
use neuro_voice.Prelude.{
  ℕ, ◌≡◌, refl, ◌∙◌, true, ◌&&◌, ◌||◌, not, Option, some, List, [], ◌∷◌, arith, ◌==◌, find,
  update_where, delete_where, Option-cases, inl, inr,
}
use neuro_voice.Voice.{Voice, Grant, is_granted}
use neuro_voice.Voice.Access.{
  is_grant, owns_live, owns, regranted, is_permission, upsert, grant, revoke,
}

is_granted-regranted :
    (voice grantee t id : ℕ) (permission : String) (by : Option ℕ) (grants : List Grant)
    → is_granted t (update_where (is_grant voice grantee) (regranted permission by) grants) id
      ≡ is_granted t grants id
is_granted-regranted voice grantee t id permission by [] = refl
is_granted-regranted voice grantee t id permission by (g ∷ gs) =
    ground (arith, is_granted-regranted voice grantee t id permission by gs)

is_granted-revoked :
    (voice grantee t id : ℕ) (grants : List Grant)
    → is_granted t (delete_where (is_grant voice grantee) grants) id
      ≡ (is_granted t grants id && not (id == voice && t == grantee))
is_granted-revoked voice grantee t id [] = refl
is_granted-revoked voice grantee t id (g ∷ gs) =
    ground (arith, is_granted-revoked voice grantee t id gs)

found-is_granted :
    (voice grantee t id : ℕ) (grants : List Grant) (g : Grant)
    → find (is_grant voice grantee) grants ≡ some g
    → is_granted t grants id ≡ (is_granted t grants id || (id == voice && t == grantee))
found-is_granted voice grantee t id [] g e = ground (arith, e)
found-is_granted voice grantee t id (h ∷ hs) g e =
    ground (arith, e, found-is_granted voice grantee t id hs g)

-- A grant by the owner of a live voice lets the grantee have that voice, and changes the access of
-- no other tenant and to no other voice, whether or not it was granted before.
pub is_granted-grant :
    (owner slug grantee now t id : ℕ) (permission : String) (by : Option ℕ) (voices : List Voice)
    (grants : List Grant) (v : Voice)
    → is_permission permission ≡ true
    → find (owns_live owner slug) voices ≡ some v
    → is_granted t (grant owner slug grantee permission by now voices grants).1 id
      ≡ (is_granted t grants id || (id == v.id && t == grantee))
unfolding grant upsert
is_granted-grant owner slug grantee now t id permission by voices grants v p e =
    elim (Option-cases (find (is_grant v.id grantee) grants)) [
      | inl new ↦ rw (p, e, grant) (rw (new, upsert) (ground arith))
      | inr (g, old) ↦
          rw (p, e, grant)
            (rw (old, upsert)
              (is_granted-regranted v.id grantee t id permission by grants
                ∙ found-is_granted v.id grantee t id grants g old))
    ]

-- Revoking takes away the grantee's grant on the owner's voice of that slug, and no other.
pub is_granted-revoke :
    (owner slug grantee t id : ℕ) (voices : List Voice) (grants : List Grant) (v : Voice)
    → find (owns owner slug) voices ≡ some v
    → is_granted t (revoke owner slug grantee voices grants).1 id
      ≡ (is_granted t grants id && not (id == v.id && t == grantee))
unfolding revoke
is_granted-revoke owner slug grantee t id voices grants v e =
    rw (e, revoke) (is_granted-revoked v.id grantee t id grants)
