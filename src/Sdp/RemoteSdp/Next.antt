-- ===== src/Sdp/RemoteSdp/Next.antt =====
-- GetNextMediaSectionIdx of src/sdp/RemoteSdp.cpp, and the section that CreateAnswer reuses.
use libmediasoupclient.Prelude.{
  ℕ, suc, ◌+◌, String, true, false, List, [], ◌∷◌, some, ◌≡◌, ◌==◌, refl, arith, ap, subst, inl,
  inr, Bool-cases, ◌∙◌,
}
use libmediasoupclient.Prelude.Lists.{get_elem?}
use libmediasoupclient.Prelude.Result.{ok, >>=-eq-ok, ok-injective}
use libmediasoupclient.Sdp.MediaSection.{MediaSection, get_mid, is_closed}
use libmediasoupclient.Index.{find_index}
use libmediasoupclient.Sdp.RemoteSdp.{RemoteSdp, next_from, get_next_media_section_idx}
use libmediasoupclient.Sdp.RemoteSdp.Consistent.{IsConsistent}

-- All sections are open; or the first closed one stands at the index and has the MID.
pub data FirstClosed : List MediaSection → ℕ → String → Type 0 where
  all_open : FirstClosed [] 0 ""
  here :
      {m : MediaSection} {rest : List MediaSection} {mid : String}
      → is_closed m ≡ ok true
      → get_mid m ≡ ok mid
      → FirstClosed (m ∷ rest) 0 mid
  later :
      {m : MediaSection} {rest : List MediaSection} {i : ℕ} {mid : String}
      → is_closed m ≡ ok false
      → FirstClosed rest i mid
      → FirstClosed (m ∷ rest) (suc i) mid

next_from-FirstClosed :
    (start : ℕ) (sections : List MediaSection) (idx : ℕ) (mid : String)
    → next_from start sections ≡ ok (idx, mid)
    → (i : ℕ) × (idx ≡ start + i) × FirstClosed sections i mid
unfolding next_from
next_from-FirstClosed start [] idx mid h =
    let same : (start, "") ≡ (idx, mid) = ok-injective h in
    (
      0,
      ground (arith, ap (λ (t : ℕ × String). t.0) same),
      subst (FirstClosed [] 0) (ap (λ (t : ℕ × String). t.1) same) all_open,
    )
next_from-FirstClosed start (m ∷ rest) idx mid h =
    let (closed, c, h₁) = >>=-eq-ok (is_closed m) _ h in
    elim (Bool-cases closed) [
      | inl is_closed ↦
          let (k, is_k, h₂) = >>=-eq-ok (get_mid m) _ (rw is_closed at h₁) in
          let same : (start, k) ≡ (idx, mid) = ok-injective h₂ in
          (
            0,
            ground (arith, ap (λ (t : ℕ × String). t.0) same),
            here (c ∙ ap ok is_closed) (is_k ∙ ap ok (ap (λ (t : ℕ × String). t.1) same)),
          )
      | inr is_open ↦
          let (i, e, first) = next_from-FirstClosed (start + 1) rest idx mid (rw is_open at h₁) in
          (suc i, ground (arith, e), later (c ∙ ap ok is_open) first)
    ]

-- The next index is that of the first closed section, with its MID; or behind all sections, which
-- are then open, with an empty MID.
pub next-FirstClosed :
    (s : RemoteSdp) (idx : ℕ) (mid : String)
    → get_next_media_section_idx s ≡ ok (idx, mid)
    → FirstClosed s.media_sections idx mid
unfolding get_next_media_section_idx
next-FirstClosed s idx mid h =
    let (i, e, first) = next_from-FirstClosed 0 s.media_sections idx mid h in
    subst (λ k. FirstClosed s.media_sections k mid) (ground (arith, e)) first

FirstClosed-section :
    {sections : List MediaSection} {i : ℕ} {mid : String}
    → FirstClosed sections i mid
    → (mid == "") ≡ false
    → (m : MediaSection) × (get_elem? sections i ≡ some m)
      × (get_mid m ≡ ok mid)
      × (is_closed m ≡ ok true)
FirstClosed-section all_open h = absurd (ground (arith, h))
FirstClosed-section (here {m} c is_mid) h = (m, refl, is_mid, c)
FirstClosed-section (later c first) h = FirstClosed-section first h

-- In a consistent description a MID that is given for reuse is in the index, at the position that
-- is given with it, and the section there is closed: CreateAnswer then replaces a closed section.
pub next-reuse :
    (s : RemoteSdp) (idx : ℕ) (mid : String)
    → IsConsistent s
    → get_next_media_section_idx s ≡ ok (idx, mid)
    → (mid == "") ≡ false
    → (find_index mid s.mid_to_index ≡ some idx)
      × ((m : MediaSection) × (get_elem? s.media_sections idx ≡ some m) × (is_closed m ≡ ok true))
next-reuse s idx mid old h given =
    let (m, at_idx, is_mid, c) = FirstClosed-section (next-FirstClosed s idx mid h) given in
    (old.is_index.complete mid idx m at_idx is_mid, (m, at_idx, c))
