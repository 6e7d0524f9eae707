-- ===== src/Sdp/RemoteSdp/Consistent.antt =====
-- The invariant of the remote session description of src/sdp/RemoteSdp.cpp.
use libmediasoupclient.Prelude.{
  some-injective, ℕ, String, Bool, true, false, List, [], ◌∷◌, ◌++◌, map, none, some, ◌≡◌, ◌==◌,
  if◌then◌else◌, eqb, ◌∙◌, refl, arith, ap, subst, sym, inl, inr, Bool-cases, Option-cases, eq_iff,
}
use libmediasoupclient.Prelude.Lists.{
  length, get_elem?, set, get_elem?-snoc, get_elem?-set, get_elem?-snoc_some, map-set,
}
use libmediasoupclient.Prelude.Result.{ok, >>=-eq-ok, ok-injective}
use mathlib.Core.List.{map-append}
use libmediasoupclient.Json.{Json, Fields}
use libmediasoupclient.Sdp.MediaSection.{
  MediaSection, get_mid, get_object, disable, close, get_mid-close, get_mid-disable,
}
use libmediasoupclient.Index.{Index, find_index, put_index, find_index-put_index, index_of-known}
use libmediasoupclient.Sdp.RemoteSdp.{
  RemoteSdp, new_remote_sdp, bundle_from, regenerate_bundle_mids, with_sections, add_media_section,
  section_at, close_media_section,
}

-- The index gives exactly the position of the section of each MID.
pub record IsIndex (sections : List MediaSection) (index : Index) : Type 0 where
  pub indexed :
      (mid : String) (i : ℕ)
      → find_index mid index ≡ some i
      → (m : MediaSection) × (get_elem? sections i ≡ some m) × (get_mid m ≡ ok mid)
  pub complete :
      (mid : String) (i : ℕ) (m : MediaSection)
      → get_elem? sections i ≡ some m
      → get_mid m ≡ ok mid
      → find_index mid index ≡ some i

-- The media of the SDP object are the objects of the sections, its BUNDLE group has the MIDs of
-- the open sections, and the index is right.
pub record IsConsistent (s : RemoteSdp) : Type 0 where
  pub in_sync : s.sdp_object.media ≡ map get_object s.media_sections
  pub bundled : bundle_from "" s.media_sections ≡ ok s.sdp_object.bundle_mids
  pub is_index : IsIndex s.media_sections s.mid_to_index

pub regenerated :
    (s t : RemoteSdp)
    → s.sdp_object.media ≡ map get_object s.media_sections
    → IsIndex s.media_sections s.mid_to_index
    → regenerate_bundle_mids s ≡ ok t
    → IsConsistent t
unfolding regenerate_bundle_mids
regenerated s t sync index h =
    let (mids, b, h₁) = >>=-eq-ok (bundle_from "" s.media_sections) _ h in
    subst IsConsistent (ok-injective h₁) (record { in_sync = sync; bundled = b; is_index = index })

IsIndex-snoc :
    (sections : List MediaSection) (index : Index) (m : MediaSection) (mid : String)
    → IsIndex sections index
    → get_mid m ≡ ok mid
    → find_index mid index ≡ none
    → IsIndex (sections ++ m ∷ []) (put_index mid (length sections) index)
IsIndex-snoc sections index m mid old is_mid new =
    let count = length sections in
    record {
      indexed = λ k i h. elim (Bool-cases (mid == k)) [
        | inl same ↦
            let last : count ≡ i =
              some-injective (rw (find_index-put_index k mid count index, same) at h) in
            (
              m,
              rw (get_elem?-snoc sections m i) (ground (arith, last)),
              ground (arith, eq_iff mid k, is_mid),
            )
        | inr other ↦
            let (n, at_i, is_k) =
              old.indexed k i (rw (find_index-put_index k mid count index, other) at h) in
            (n, get_elem?-snoc_some sections m i at_i, is_k)
      ];
      complete = λ k i n at_i is_k. elim (Bool-cases (eqb count i)) [
        | inl last ↦
            let same : m ≡ n = some-injective (rw (get_elem?-snoc sections m i, last) at at_i) in
            let same_mid : mid ≡ k = ok-injective (sym is_mid ∙ rw (sym same) at is_k) in
            rw (find_index-put_index k mid count index)
              (ground (arith, eq_iff mid k, same_mid, last))
        | inr before ↦
            let found : find_index k index ≡ some i =
              old.complete k i n (rw (get_elem?-snoc sections m i, before) at at_i) is_k in
            rw (find_index-put_index k mid count index) (ground (arith, eq_iff mid k, found, new))
      ];
    }

-- A section in the place of one with the same MID.
IsIndex-same :
    (sections : List MediaSection) (index : Index) (idx : ℕ) (m old : MediaSection)
    → IsIndex sections index
    → get_elem? sections idx ≡ some old
    → get_mid m ≡ get_mid old
    → IsIndex (set sections idx m) index
IsIndex-same sections index idx m old is_index at_idx same = record {
  indexed = λ k i h.
      (let (n, at_i, is_k) = is_index.indexed k i h in
        elim (Bool-cases (eqb idx i)) [
          | inl here ↦
              let is_old : old ≡ n = ground (arith, here, at_idx, at_i) in
              (
                m,
                rw (get_elem?-set sections idx i m at_idx, here) refl,
                same ∙ ap get_mid is_old ∙ is_k,
              )
          | inr there ↦ (n, rw (get_elem?-set sections idx i m at_idx, there) at_i, is_k)
        ]);
  complete = λ k i n at_i is_k. elim (Bool-cases (eqb idx i)) [
    | inl here ↦
        let is_m : m ≡ n =
          some-injective (rw (get_elem?-set sections idx i m at_idx, here) at at_i) in
        let at_i' : get_elem? sections i ≡ some old = ground (arith, here, at_idx) in
        is_index.complete k i old at_i' (sym same ∙ ap get_mid is_m ∙ is_k)
    | inr there ↦
        is_index.complete k i n (rw (get_elem?-set sections idx i m at_idx, there) at at_i) is_k
  ];
}

-- A description without media sections is consistent.
pub new-IsConsistent : (ice : Json) (dtls : Fields) → IsConsistent (new_remote_sdp ice dtls)
unfolding new_remote_sdp bundle_from find_index
new-IsConsistent ice dtls = record {
  in_sync = refl;
  bundled = refl;
  is_index = record {
    indexed = λ k i h. absurd (ground arith);
    complete = λ k i n h is_k. absurd (ground arith);
  };
}

-- Adding a section whose MID no other section has leaves a consistent description.
pub add-IsConsistent :
    (m : MediaSection) (mid : String) (s t : RemoteSdp)
    → IsConsistent s
    → get_mid m ≡ ok mid
    → find_index mid s.mid_to_index ≡ none
    → add_media_section m s ≡ ok t
    → IsConsistent t
unfolding add_media_section with_sections
add-IsConsistent m mid s t old is_mid new h =
    regenerated _ t (rw (old.in_sync) (sym (map-append get_object s.media_sections (m ∷ []))))
      (IsIndex-snoc s.media_sections s.mid_to_index m mid old.is_index is_mid new) (rw is_mid at h)

pub section_at-get :
    (i : ℕ) (sections : List MediaSection) (m : MediaSection)
    → section_at i sections ≡ ok m
    → get_elem? sections i ≡ some m
section_at-get i sections m h = elim (Option-cases (get_elem? sections i)) [
  | inl missing ↦ absurd (cc (rw (missing, section_at) at h))
  | inr (n, found) ↦ found ∙ ap some (ok-injective (rw (found, section_at) at h))
]

pub set-in_sync :
    (s : RemoteSdp) (i : ℕ) (m : MediaSection)
    → s.sdp_object.media ≡ map get_object s.media_sections
    → set s.sdp_object.media i (get_object m) ≡ map get_object (set s.media_sections i m)
set-in_sync s i m h = rw h (sym (map-set get_object s.media_sections i m))

pub get_mid-closed :
    (is_first : Bool) (m : MediaSection)
    → get_mid (if is_first then disable m else close m) ≡ get_mid m
get_mid-closed true m = get_mid-disable m
get_mid-closed false m = get_mid-close m

-- Closing the section of a MID that the description has leaves a consistent description.
pub close-IsConsistent :
    (mid : String) (i : ℕ) (s t : RemoteSdp)
    → IsConsistent s
    → find_index mid s.mid_to_index ≡ some i
    → close_media_section mid s ≡ ok t
    → IsConsistent t
unfolding close_media_section with_sections
close-IsConsistent mid i s t old known h =
    let (m, at_i, h₁) =
      >>=-eq-ok (section_at i s.media_sections) _
        (rw (index_of-known mid i s.mid_to_index known) at h) in
    let closed = if mid == s.first_mid then disable m else close m in
    regenerated _ t (set-in_sync s i closed old.in_sync)
      (IsIndex-same s.media_sections s.mid_to_index i closed m old.is_index
        (section_at-get i s.media_sections m at_i) (get_mid-closed (mid == s.first_mid) m))
      h₁
