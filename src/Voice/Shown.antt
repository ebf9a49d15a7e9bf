-- ===== src/Voice/Shown.antt =====
-- The listing of src/repos/voice.py and the lookup by slug agree on who can use what.
use neuro_voice.Prelude.{
  ℕ, ◌≡◌, refl, sym, ap, ◌∙◌, Bool, false, ◌&&◌, List, [], ◌∷◌, arith, ltb, ◌==◌, is_some, find,
  count_where,
}
use neuro_voice.Voice.{Voice, Grant, is_listed, list_accessible, get_accessible}
use neuro_voice.Voice.Listing.{InOrder, list_accessible_lem}
use neuro_voice.Voice.Visible.{is_usable, get_accessible_complete}

found-count : (p : Voice → Bool) (vs : List Voice) → is_some (find p vs) ≡ ltb 0 (count_where p vs)
found-count p [] = refl
found-count p (v ∷ vs) = ground (arith, found-count p vs)

count-ext :
    (p q : Voice → Bool) (vs : List Voice)
    → ((v : Voice) → p v ≡ q v)
    → count_where p vs ≡ count_where q vs
count-ext p q [] h = refl
count-ext p q (v ∷ vs) h = ground (arith, h v, count-ext p q vs h)

-- The listing of a tenant is in the order of the slugs, whosoever the voices are; it shows a slug exactly
-- when `get_accessible` finds a voice for it, and a voice, as often as the table has it, exactly when it
-- is live and is the tenant's own, granted to it or public.
pub list_accessible_shows :
    (tenant_id slug : ℕ) (grants : List Grant) (voices : List Voice)
    → let listed = list_accessible tenant_id grants false voices in
      InOrder listed
      × (is_some (find (λ v. v.voice_id == slug) listed)
          ≡ is_some (get_accessible tenant_id slug grants voices))
      × ((q : Voice → Bool)
          → count_where q listed
            ≡ count_where (λ v. is_usable tenant_id v.voice_id grants v && q v) voices)
list_accessible_shows tenant_id slug grants voices =
    let listed = list_accessible tenant_id grants false voices in
    let named : Voice → Bool = λ v. v.voice_id == slug in
    let usable = is_usable tenant_id slug grants in
    let (order, counts) = list_accessible_lem tenant_id grants false voices in
    (
      order,
      found-count named listed
          ∙ ap (ltb 0) (
              counts named
              ∙ count-ext (λ v. is_listed tenant_id grants false v && named v) usable voices
                  (λ v. ground arith))
          ∙ sym (found-count usable voices)
          ∙ sym (get_accessible_complete tenant_id slug grants voices),
      λ q.
          counts q
          ∙ count-ext (λ v. is_listed tenant_id grants false v && q v)
              (λ v. is_usable tenant_id v.voice_id grants v && q v) voices (λ v. ground arith),
    )
