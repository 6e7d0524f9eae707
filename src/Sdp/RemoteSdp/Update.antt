-- ===== src/Sdp/RemoteSdp/Update.antt =====
-- UpdateIceParameters and UpdateDtlsRole of src/sdp/RemoteSdp.cpp, which change every section.
use libmediasoupclient.Prelude.{
  some-injective, ℕ, zero, suc, String, List, [], ◌∷◌, map, some, ◌≡◌, ◌∙◌, refl, arith, ap, subst,
  sym,
}
use libmediasoupclient.Prelude.Lists.{get_elem?}
use libmediasoupclient.Prelude.Result.{Result, ok, >>=-eq-ok, ok-injective}
use libmediasoupclient.Json.{Json}
use libmediasoupclient.Sdp.MediaSection.{
  MediaSection, get_mid, get_object, set_ice_parameters, set_dtls_role, HasSameMid,
  set_ice_parameters-HasSameMid, set_dtls_role-HasSameMid,
}
use libmediasoupclient.Index.{Index}
use libmediasoupclient.Sdp.RemoteSdp.{
  RemoteSdp, bundle_from, change_sections, overwrite, update_ice_parameters, update_dtls_role,
}
use libmediasoupclient.Sdp.RemoteSdp.Consistent.{IsIndex, IsConsistent}

-- Sections of the same MIDs, closed at the same places.
data Kept : List MediaSection → List MediaSection → Type 0 where
  done : Kept [] []
  kept :
      {m m' : MediaSection} {xs ys : List MediaSection}
      → HasSameMid m m'
      → Kept xs ys
      → Kept (m ∷ xs) (m' ∷ ys)

change_sections-Kept :
    (change : MediaSection → Result MediaSection)
    → ((m m' : MediaSection) → change m ≡ ok m' → HasSameMid m m')
    → (xs ys : List MediaSection) → change_sections change xs ≡ ok ys
    → Kept xs ys
unfolding change_sections
change_sections-Kept change same [] ys h = subst (Kept []) (ok-injective h) done
change_sections-Kept change same (m ∷ xs) ys h =
    let (m', c, h₁) = >>=-eq-ok (change m) _ h in
    let (ys', r, h₂) = >>=-eq-ok (change_sections change xs) _ h₁ in
    subst (Kept (m ∷ xs)) (ok-injective h₂)
      (kept (same m m' c) (change_sections-Kept change same xs ys' r))

Kept-bundle :
    {xs ys : List MediaSection}
    → Kept xs ys
    → (mids : String) → bundle_from mids ys ≡ bundle_from mids xs
unfolding bundle_from
Kept-bundle done mids = refl
Kept-bundle (kept same rest) mids = simp (same.mid, same.closed, Kept-bundle rest)

Kept-overwrite :
    {xs ys : List MediaSection}
    → Kept xs ys
    → overwrite (map get_object ys) (map get_object xs) ≡ map get_object ys
unfolding overwrite
Kept-overwrite done = refl
Kept-overwrite (kept {m' = m'} same rest) = ap (λ t. get_object m' ∷ t) (Kept-overwrite rest)

Kept-before :
    {xs ys : List MediaSection}
    → Kept xs ys
    → (i : ℕ) (m' : MediaSection) → get_elem? ys i ≡ some m'
    → (m : MediaSection) × (get_elem? xs i ≡ some m) × (get_mid m' ≡ get_mid m)
Kept-before done i m' h = absurd (ground arith)
Kept-before (kept {m} same rest) zero m' h =
    (m, refl, ap get_mid (sym (some-injective h)) ∙ same.mid)
Kept-before (kept same rest) (suc i) m' h = Kept-before rest i m' h

Kept-after :
    {xs ys : List MediaSection}
    → Kept xs ys
    → (i : ℕ) (m : MediaSection) → get_elem? xs i ≡ some m
    → (m' : MediaSection) × (get_elem? ys i ≡ some m') × (get_mid m' ≡ get_mid m)
Kept-after done i m h = absurd (ground arith)
Kept-after (kept {m' = m'} same rest) zero m h =
    (m', refl, same.mid ∙ ap get_mid (some-injective h))
Kept-after (kept same rest) (suc i) m h = Kept-after rest i m h

Kept-IsIndex :
    {xs ys : List MediaSection} (index : Index) → Kept xs ys → IsIndex xs index → IsIndex ys index
Kept-IsIndex index same old = record {
  indexed = λ mid i h.
      (let (m, at_i, is_mid) = old.indexed mid i h in
        let (m', at_i', same_mid) = Kept-after same i m at_i in (m', at_i', same_mid ∙ is_mid));
  complete = λ mid i m' at_i is_mid.
      (let (m, at_i', same_mid) = Kept-before same i m' at_i in
        old.complete mid i m at_i' (sym same_mid ∙ is_mid));
}

-- New ICE parameters leave a consistent description.
pub update_ice-IsConsistent :
    (ice : Json) (s t : RemoteSdp)
    → IsConsistent s
    → update_ice_parameters ice s ≡ ok t
    → IsConsistent t
unfolding update_ice_parameters
update_ice-IsConsistent ice s t old h =
    let (sections, c, h₁) = >>=-eq-ok (change_sections (set_ice_parameters ice) _) _ h in
    let same =
      change_sections-Kept (set_ice_parameters ice) (set_ice_parameters-HasSameMid ice) _ _ c in
    subst IsConsistent (ok-injective h₁) (record {
      in_sync = rw (old.in_sync) (Kept-overwrite same);
      bundled = Kept-bundle same "" ∙ old.bundled;
      is_index = Kept-IsIndex s.mid_to_index same old.is_index;
    })

-- A new DTLS role leaves a consistent description.
pub update_dtls-IsConsistent :
    (role : String) (s t : RemoteSdp)
    → IsConsistent s
    → update_dtls_role role s ≡ ok t
    → IsConsistent t
unfolding update_dtls_role
update_dtls-IsConsistent role s t old h =
    let change : MediaSection → Result MediaSection = λ m. ok (set_dtls_role role m) in
    let (sections, c, h₁) = >>=-eq-ok (change_sections change _) _ h in
    let same =
      change_sections-Kept change
        (λ m m' e. subst (HasSameMid m) (ok-injective e) (set_dtls_role-HasSameMid role m)) _ _ c in
    subst IsConsistent (ok-injective h₁) (record {
      in_sync = rw (old.in_sync) (Kept-overwrite same);
      bundled = Kept-bundle same "" ∙ old.bundled;
      is_index = Kept-IsIndex s.mid_to_index same old.is_index;
    })
