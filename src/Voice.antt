-- ===== src/Voice.antt =====
-- `VoiceRepo` of src/repos/voice.py: what a tenant can see, and the owner's edits. The children
-- Voice/Lifecycle and Voice/Access model freezing and purging, and src/repos/voice_access.py.
mod Defs
pub mod Create
pub mod Lifecycle
pub mod Access
pub mod Visible
pub mod Ownership
pub mod Listing
pub mod Shown
mod Tests
pub use Defs.*
use Prim.Native.String.{String}
use text.Mathlib.Text.{◌==◌ as str_eq}
use neuro_voice.Prelude.{
  ℕ, Bool, true, false, ◌&&◌, ◌||◌, not, Option, none, some, List, [], ◌∷◌, leb, ◌==◌,
  if◌then◌else◌, is_some, find, update_where, select_where,
}

-- The subquery `granted_voice_ids` holds the id of a voice.
abbrev pub is_granted : ℕ → List Grant → ℕ → Bool
is_granted tenant_id grants id =
    is_some (find (λ g. g.tenant_id == tenant_id && g.voice_id == id) grants)

abbrev pub is_live : Voice → Bool
is_live v = not (is_some v.deleted_at)

abbrev pub is_public : Voice → Bool
is_public v = elim v.visibility [ public ↦ true | _ ↦ false ]

abbrev pub is_owned_slug : ℕ → ℕ → Voice → Bool
is_owned_slug tenant_id slug v = v.owner_tenant_id == tenant_id && v.voice_id == slug && is_live v

abbrev pub is_granted_slug : ℕ → ℕ → List Grant → Voice → Bool
is_granted_slug tenant_id slug grants v =
    v.voice_id == slug && is_granted tenant_id grants v.id && is_live v

abbrev pub is_public_slug : ℕ → Voice → Bool
is_public_slug slug v = v.voice_id == slug && is_public v && is_live v

unfoldable pub get_owned : ℕ → ℕ → List Voice → Option Voice
get_owned tenant_id slug = find (is_owned_slug tenant_id slug)

-- `.order_by(Voice.created_at).limit(1)`
unfoldable pub earliest : List Voice → Option Voice
earliest [] = none
earliest (v ∷ vs) = elim (earliest vs) [
  | none ↦ some v
  | some w ↦ if leb v.created_at w.created_at then some v else some w
]

unfoldable pub get_accessible : ℕ → ℕ → List Grant → List Voice → Option Voice
get_accessible tenant_id slug grants voices = elim (get_owned tenant_id slug voices) [
  | some owned ↦ some owned
  | none ↦ elim (earliest (select_where (is_granted_slug tenant_id slug grants) voices)) [
    | some granted ↦ some granted
    | none ↦ earliest (select_where (is_public_slug slug) voices)
  ]
]

-- `.order_by(Voice.voice_id)`
insert_by_slug : Voice → List Voice → List Voice
insert_by_slug v [] = v ∷ []
insert_by_slug v (w ∷ ws) =
    if leb v.voice_id w.voice_id then v ∷ w ∷ ws else w ∷ insert_by_slug v ws

pub sort_by_slug : List Voice → List Voice
unfolding insert_by_slug
sort_by_slug [] = []
sort_by_slug (v ∷ vs) = insert_by_slug v (sort_by_slug vs)

abbrev pub is_listed : ℕ → List Grant → Bool → Voice → Bool
is_listed tenant_id grants include_deleted v =
    (v.owner_tenant_id == tenant_id || is_public v || is_granted tenant_id grants v.id)
    && (include_deleted || is_live v)

pub list_accessible : ℕ → List Grant → Bool → List Voice → List Voice
unfolding sort_by_slug
list_accessible tenant_id grants include_deleted voices =
    sort_by_slug (select_where (is_listed tenant_id grants include_deleted) voices)

-- `invalid` is a ValueError, `missing` is None.
pub data Reply : Type 0 where
  invalid missing : Reply
  updated : Voice → Reply

abbrev pub has_id : ℕ → Voice → Bool
has_id id v = v.id == id

-- A change of the row that a query returned, flushed by its primary key.
pub mutate : Option Voice → (Voice → Voice) → List Voice → Reply × List Voice
mutate none f voices = (missing, voices)
mutate (some v) f voices = (updated (f v), update_where (has_id v.id) f voices)

pub parse_visibility : String → Option Visibility
parse_visibility s =
    if str_eq s "private"
    then some private
    else if str_eq s "shared"
    then some shared
    else if str_eq s "public"
    then some public
    else none

pub parse_release_status : String → Option ReleaseStatus
parse_release_status s =
    if str_eq s "draft"
    then some draft
    else if str_eq s "staging"
    then some staging
    else if str_eq s "production"
    then some production
    else if str_eq s "deprecated"
    then some deprecated
    else none

-- The columns that `update_metadata` may write; an absent one is left alone.
pub record Metadata : Type 0 where
  pub display_name : Option String
  pub description : Option String
  pub labels : Option (List String)
  pub preview_url : Option String
  pub voice_settings_defaults : Option Json
  pub style_tags : Option (List String)
  pub visibility : Option String

abbrev pub given {ℓ} : {A : Type ℓ} → Option A → A → A
given none old = old
given (some new) old = new

abbrev pub given_some {ℓ} : {A : Type ℓ} → Option A → Option A → Option A
given_some none old = old
given_some (some new) old = some new

pub with_metadata : Metadata → Visibility → Voice → Voice
with_metadata m visibility v = record v {
  display_name = given m.display_name v.display_name;
  description = given_some m.description v.description;
  labels = given_some m.labels v.labels;
  preview_url = given_some m.preview_url v.preview_url;
  voice_settings_defaults = given_some m.voice_settings_defaults v.voice_settings_defaults;
  style_tags = given m.style_tags v.style_tags;
  visibility = visibility;
}

-- The visibility that the row is left with; none is the ValueError, after which the request's
-- session is not committed.
abbrev pub next_visibility : Option String → Voice → Option Visibility
unfolding parse_visibility
next_visibility none v = some v.visibility
next_visibility (some s) v = parse_visibility s

pub update_metadata : ℕ → ℕ → Metadata → List Voice → Reply × List Voice
unfolding mutate with_metadata
update_metadata tenant_id slug m voices = elim (get_owned tenant_id slug voices) [
  | none ↦ (missing, voices)
  | some v ↦ elim (next_visibility m.visibility v) [
    | none ↦ (invalid, voices)
    | some visibility ↦ mutate (some v) (with_metadata m visibility) voices
  ]
]

abbrev pub with_deleted : ℕ → Voice → Voice
with_deleted now v = record v { deleted_at = some now }

pub soft_delete : ℕ → ℕ → ℕ → List Voice → Reply × List Voice
unfolding mutate
soft_delete tenant_id slug now voices =
    mutate (get_owned tenant_id slug voices) (with_deleted now) voices

abbrev pub with_release_status : ReleaseStatus → Voice → Voice
with_release_status s v = record v { release_status = s }

pub set_release_status : ℕ → ℕ → String → List Voice → Reply × List Voice
unfolding mutate parse_release_status
set_release_status tenant_id slug status voices = elim (parse_release_status status) [
  | none ↦ (invalid, voices)
  | some s ↦ mutate (get_owned tenant_id slug voices) (with_release_status s) voices
]

abbrev pub with_visibility : Visibility → Voice → Voice
with_visibility s v = record v { visibility = s }

pub set_visibility : ℕ → ℕ → String → List Voice → Reply × List Voice
unfolding mutate parse_visibility
set_visibility tenant_id slug visibility voices = elim (parse_visibility visibility) [
  | none ↦ (invalid, voices)
  | some s ↦ mutate (get_owned tenant_id slug voices) (with_visibility s) voices
]
