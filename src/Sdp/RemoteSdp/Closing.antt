-- ===== src/Sdp/RemoteSdp/Closing.antt =====
-- What CloseMediaSection of src/sdp/RemoteSdp.cpp does to the sections.
use libmediasoupclient.Prelude.{
  some-injective, ℕ, String, Bool, true, false, some, ◌≡◌, ◌==◌, if◌then◌else◌, eqb, refl, arith,
  ap, sym, ◌∙◌,
}
use libmediasoupclient.Prelude.Lists.{get_elem?, set, get_elem?-set}
use libmediasoupclient.Prelude.Result.{ok, >>=-eq-ok, ok-injective}
use libmediasoupclient.Sdp.MediaSection.{
  MediaSection, get_mid, is_closed, disable, close, is_closed-close, is_closed-disable,
}
use libmediasoupclient.Index.{find_index, index_of-known}
use libmediasoupclient.Sdp.RemoteSdp.{
  RemoteSdp, bundle_from, regenerate_bundle_mids, with_sections, section_at, close_media_section,
}
use libmediasoupclient.Sdp.RemoteSdp.Consistent.{section_at-get, get_mid-closed}

regenerate-sections :
    (s t : RemoteSdp) → regenerate_bundle_mids s ≡ ok t → t.media_sections ≡ s.media_sections
unfolding regenerate_bundle_mids
regenerate-sections s t h =
    let (mids, _, h₁) = >>=-eq-ok (bundle_from "" s.media_sections) _ h in
    rw (← ok-injective h₁) refl

is_closed-changed :
    (is_first : Bool) (m : MediaSection)
    → is_closed (if is_first then disable m else close m)
      ≡ (if is_first then is_closed m else ok true)
is_closed-changed true m = is_closed-disable m
is_closed-changed false m = is_closed-close m

-- The section of an index before and after: closed afterwards unless it is the first MID's, which
-- stays as it was; every other section is the same.
pub record ClosedAt (is_first : Bool) (i : ℕ) (m : MediaSection) (s t : RemoteSdp) : Type 0 where
  pub changed : MediaSection
  pub at_i : get_elem? t.media_sections i ≡ some changed
  pub closed : is_closed changed ≡ (if is_first then is_closed m else ok true)
  pub same_mid : get_mid changed ≡ get_mid m
  pub others :
      (j : ℕ) → eqb i j ≡ false → get_elem? t.media_sections j ≡ get_elem? s.media_sections j

-- Closing the section of a MID that is in the index closes that section, unless the MID is the
-- first one: then its section stays open or closed as it was. Its MID and all other sections stay.
pub close-ClosedAt :
    (mid : String) (i : ℕ) (m : MediaSection) (s t : RemoteSdp)
    → find_index mid s.mid_to_index ≡ some i
    → get_elem? s.media_sections i ≡ some m
    → close_media_section mid s ≡ ok t
    → ClosedAt (mid == s.first_mid) i m s t
unfolding close_media_section with_sections
close-ClosedAt mid i m s t known at_i h =
    let (o, o_at, h₁) =
      >>=-eq-ok (section_at i s.media_sections) _
        (rw (index_of-known mid i s.mid_to_index known) at h) in
    let o_i = section_at-get i s.media_sections o o_at in
    let same : o ≡ m = some-injective (sym o_i ∙ at_i) in
    let is_first = mid == s.first_mid in
    let changed = if is_first then disable o else close o in
    let sections : t.media_sections ≡ set s.media_sections i changed = regenerate-sections _ t h₁ in
    record {
      changed = changed;
      at_i = rw (sections, get_elem?-set s.media_sections i i changed o_i) (ground arith);
      closed =
          is_closed-changed is_first o ∙ ap (λ n. if is_first then is_closed n else ok true) same;
      same_mid = get_mid-closed is_first o ∙ ap get_mid same;
      others =
          λ j differs. rw (sections, get_elem?-set s.media_sections i j changed o_i, differs) refl;
    }
