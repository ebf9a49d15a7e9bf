-- ===== src/Voice/Access.antt =====
-- `VoiceAccessRepo` of src/repos/voice_access.py: grants on the owner's voices.
pub mod Granted
use Prim.Native.String.{String}
use text.Mathlib.Text.{◌==◌ as str_eq}
use neuro_voice.Prelude.{
  ℕ, Bool, true, false, ◌&&◌, ◌||◌, not, Option, none, some, List, [], ◌∷◌, leb, ◌==◌,
  if◌then◌else◌, is_some, find, update_where, delete_where, select_where, count_where,
}
use neuro_voice.Voice.Defs.{Voice, Grant}

abbrev pub is_grant : ℕ → ℕ → Grant → Bool
is_grant voice tenant_id g = g.voice_id == voice && g.tenant_id == tenant_id

abbrev pub owns_live : ℕ → ℕ → Voice → Bool
owns_live owner slug v =
    v.owner_tenant_id == owner && v.voice_id == slug && not (is_some v.deleted_at)

-- `revoke` and `list_grants` look at deleted voices too.
abbrev pub owns : ℕ → ℕ → Voice → Bool
owns owner slug v = v.owner_tenant_id == owner && v.voice_id == slug

-- `invalid` is a ValueError, `missing` is None.
pub data GrantReply : Type 0 where
  invalid missing : GrantReply
  granted : Grant → GrantReply

abbrev pub regranted : String → Option ℕ → Grant → Grant
regranted permission granted_by g = record g { permission = permission; granted_by = granted_by }

abbrev pub is_permission : String → Bool
is_permission p = str_eq p "use" || str_eq p "read"

-- The upsert for a voice that the owner owns.
pub upsert : ℕ → ℕ → String → Option ℕ → ℕ → List Grant → GrantReply × List Grant
upsert voice grantee permission granted_by now grants =
    elim (find (is_grant voice grantee) grants) [
      | some g ↦ (
        granted (regranted permission granted_by g),
        update_where (is_grant voice grantee) (regranted permission granted_by) grants,
      )
      | none ↦
          let row : Grant = record {
            tenant_id = grantee;
            voice_id = voice;
            permission = permission;
            granted_at = now;
            granted_by = granted_by;
          } in
          (granted row, row ∷ grants)
    ]

pub grant : ℕ → ℕ → ℕ → String → Option ℕ → ℕ → List Voice → List Grant → GrantReply × List Grant
unfolding upsert
grant owner slug grantee permission granted_by now voices grants =
    if is_permission permission
    then elim (find (owns_live owner slug) voices) [
      | none ↦ (missing, grants)
      | some v ↦ upsert v.id grantee permission granted_by now grants
    ]
    else (invalid, grants)

pub revoke : ℕ → ℕ → ℕ → List Voice → List Grant → ℕ × List Grant
revoke owner slug grantee voices grants = elim (find (owns owner slug) voices) [
  | none ↦ (0, grants)
  | some v ↦
      (count_where (is_grant v.id grantee) grants, delete_where (is_grant v.id grantee) grants)
]

-- `.order_by(VoiceAccess.granted_at)`
insert_by_time : Grant → List Grant → List Grant
insert_by_time g [] = g ∷ []
insert_by_time g (h ∷ hs) =
    if leb g.granted_at h.granted_at then g ∷ h ∷ hs else h ∷ insert_by_time g hs

sort_by_time : List Grant → List Grant
unfolding insert_by_time
sort_by_time [] = []
sort_by_time (g ∷ gs) = insert_by_time g (sort_by_time gs)

pub list_grants : ℕ → ℕ → List Voice → List Grant → List Grant
unfolding sort_by_time
list_grants owner slug voices grants = elim (find (owns owner slug) voices) [
  | none ↦ []
  | some v ↦ sort_by_time (select_where (λ g. g.voice_id == v.id) grants)
]
