-- ===== src/Sdp/RemoteSdp/Replace.antt =====
-- ReplaceMediaSection of src/sdp/RemoteSdp.cpp, with a MID to reuse.
use libmediasoupclient.Prelude.{
  some-injective, ℕ, String, false, List, none, some, ◌≡◌, ◌==◌, eqb, ◌∙◌, arith, ap, sym, inl, inr,
  Bool-cases, eq_iff,
}
use libmediasoupclient.Prelude.Lists.{get_elem?, set, get_elem?-set}
use libmediasoupclient.Prelude.Result.{ok, >>=-eq-ok, ok-injective}
use libmediasoupclient.Sdp.MediaSection.{MediaSection, get_mid}
use libmediasoupclient.Index.{
  Index, find_index, put_index, erase_index, find_index-put_index, find_index-erase_index,
  index_of-known,
}
use libmediasoupclient.Sdp.RemoteSdp.{RemoteSdp, with_sections, section_at, replace_media_section}
use libmediasoupclient.Sdp.RemoteSdp.Consistent.{
  IsIndex, IsConsistent, regenerated, section_at-get, set-in_sync,
}

module _ (sections : List MediaSection) (index : Index) (idx : ℕ) (m old : MediaSection)
    (mid old_mid : String) (is_index : IsIndex sections index)
    (at_idx : get_elem? sections idx ≡ some old) (is_old : get_mid old ≡ ok old_mid)
    (is_mid : get_mid m ≡ ok mid) (new : find_index mid (erase_index old_mid index) ≡ none) where
  replaced_found :
      (k : String) (i : ℕ)
      → (mid == k) ≡ false
      → find_index k (put_index mid idx (erase_index old_mid index)) ≡ some i
      → (n : MediaSection) × (get_elem? (set sections idx m) i ≡ some n) × (get_mid n ≡ ok k)
  replaced_found k i other h =
      let kept : find_index k (erase_index old_mid index) ≡ some i =
        rw (find_index-put_index k mid idx (erase_index old_mid index), other) at h in
      let differs : (old_mid == k) ≡ false =
        ground (arith, kept, find_index-erase_index k old_mid index) in
      let (n, at_i, is_k) =
        is_index.indexed k i (rw (find_index-erase_index k old_mid index, differs) at kept) in
      elim (Bool-cases (eqb idx i)) [
        | inl here ↦
            let same : old ≡ n = ground (arith, here, at_idx, at_i) in
            let same_mid : old_mid ≡ k = ok-injective (sym is_old ∙ ap get_mid same ∙ is_k) in
            absurd (ground (arith, eq_iff old_mid k, same_mid, differs))
        | inr there ↦ (n, rw (get_elem?-set sections idx i m at_idx, there) at_i, is_k)
      ]

  replaced_index :
      (k : String) (i : ℕ) (n : MediaSection)
      → eqb idx i ≡ false
      → get_elem? sections i ≡ some n
      → get_mid n ≡ ok k
      → find_index k (put_index mid idx (erase_index old_mid index)) ≡ some i
  replaced_index k i n there at_i is_k =
      let found : find_index k index ≡ some i = is_index.complete k i n at_i is_k in
      let old_found : find_index old_mid index ≡ some idx =
        is_index.complete old_mid idx old at_idx is_old in
      let kept : find_index k (erase_index old_mid index) ≡ some i =
        rw (find_index-erase_index k old_mid index)
          (ground (arith, eq_iff old_mid k, found, old_found, there)) in
      rw (find_index-put_index k mid idx (erase_index old_mid index))
        (ground (arith, eq_iff mid k, kept, new))

  IsIndex-replace : IsIndex (set sections idx m) (put_index mid idx (erase_index old_mid index))
  IsIndex-replace = record {
    indexed = λ k i h. elim (Bool-cases (mid == k)) [
      | inr other ↦ replaced_found k i other h
      | inl same ↦
          let here : idx ≡ i =
            some-injective
              (rw (find_index-put_index k mid idx (erase_index old_mid index), same) at h) in
          (
            m,
            rw (get_elem?-set sections idx i m at_idx) (ground (arith, here)),
            ground (arith, eq_iff mid k, is_mid),
          )
    ];
    complete = λ k i n at_i is_k. elim (Bool-cases (eqb idx i)) [
      | inl here ↦
          let same : m ≡ n =
            some-injective (rw (get_elem?-set sections idx i m at_idx, here) at at_i) in
          let same_mid : mid ≡ k = ok-injective (sym is_mid ∙ ap get_mid same ∙ is_k) in
          rw (find_index-put_index k mid idx (erase_index old_mid index))
            (ground (arith, eq_iff mid k, same_mid, here))
      | inr there ↦
          replaced_index k i n there (rw (get_elem?-set sections idx i m at_idx, there) at at_i)
            is_k
    ];
  }

-- Putting a section in the place of the one of a known MID leaves a consistent description, if its
-- own MID is that of no section that stays.
pub replace-IsConsistent :
    (m : MediaSection) (mid reuse_mid : String) (i : ℕ) (s t : RemoteSdp)
    → IsConsistent s
    → get_mid m ≡ ok mid
    → find_index reuse_mid s.mid_to_index ≡ some i
    → find_index mid (erase_index reuse_mid s.mid_to_index) ≡ none
    → replace_media_section m reuse_mid s ≡ ok t
    → IsConsistent t
unfolding replace_media_section with_sections
replace-IsConsistent m mid reuse_mid i s t old is_mid known new h =
    let (o, at_i, h₁) =
      >>=-eq-ok (section_at i s.media_sections) _
        (rw (index_of-known reuse_mid i s.mid_to_index known) at h) in
    let (n, get_i, is_reuse) = old.is_index.indexed reuse_mid i known in
    let get_o = section_at-get i s.media_sections o at_i in
    let same : n ≡ o = some-injective (sym get_i ∙ get_o) in
    let is_o : get_mid o ≡ ok reuse_mid = ap get_mid (sym same) ∙ is_reuse in
    regenerated _ t (set-in_sync s i m old.in_sync)
      (IsIndex-replace s.media_sections s.mid_to_index i m o mid reuse_mid old.is_index get_o is_o
        is_mid new)
      (rw (is_o, is_mid) at h₁)
