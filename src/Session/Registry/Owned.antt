-- ===== src/Session/Registry/Owned.antt =====
-- Which objects the map of a transport of src/Transport.cpp has.
use libmediasoupclient.Prelude.{
  some-injective, ℕ, String, true, false, List, [], ◌∷◌, none, some, ◌≡◌, ◌==◌, ◌∙◌, eqb, refl,
  arith, ap, sym, subst, inl, inr, Bool-cases, Option-cases, eq_iff,
}
use libmediasoupclient.Prelude.Lists.{
  length, get_elem?, set, get_elem?-snoc, get_elem?-snoc_some, get_elem?-set,
}
use libmediasoupclient.Index.{
  Index, find_index, erase_index, find_index-put_index, find_index-erase_index,
}
use libmediasoupclient.Session.Registry.{
  Entry, Registry, empty, register, register_as, shut, close, transport_closed, close_all_of,
  close_all,
}

module _ {ℓ} {A : Type ℓ} where
  -- The map has exactly the open objects, under their ids.
  pub record IsOwned (r : Registry A) : Type ℓ where
    pub live :
        (p : ℕ) (e : Entry A)
        → get_elem? r.objects p ≡ some e
        → e.closed ≡ false
        → find_index e.id r.by_id ≡ some p
    pub found :
        (id : String) (p : ℕ)
        → find_index id r.by_id ≡ some p
        → (e : Entry A) × (get_elem? r.objects p ≡ some e) × (e.closed ≡ false) × (e.id ≡ id)

  pub empty-IsOwned : IsOwned empty
  unfolding empty find_index
  empty-IsOwned = record {
    live = λ p e h o. absurd (ground arith);
    found = λ id p h. absurd (ground arith);
  }

  pub register-IsOwned :
      (id local_id : String) (value : A) (r : Registry A)
      → IsOwned r
      → find_index id r.by_id ≡ none
      → IsOwned (register id local_id value r)
  unfolding register register_as
  register-IsOwned id local_id value r old new =
      let count = length r.objects in
      let e : Entry A = record { id = id; local_id = local_id; closed = false; value = value } in
      record {
        live = λ p x h o. elim (Bool-cases (eqb count p)) [
          | inl last ↦
              let same : e ≡ x = some-injective (rw (get_elem?-snoc r.objects e p, last) at h) in
              let same_id : id ≡ x.id = ap (λ (y : Entry A). y.id) same in
              rw (find_index-put_index x.id id count r.by_id)
                (ground (arith, eq_iff id x.id, same_id, last))
          | inr before ↦
              let there = old.live p x (rw (get_elem?-snoc r.objects e p, before) at h) o in
              rw (find_index-put_index x.id id count r.by_id)
                (ground (arith, eq_iff id x.id, there, new))
        ];
        found = λ k p h. elim (Bool-cases (id == k)) [
          | inl same ↦
              let last : count ≡ p =
                some-injective (rw (find_index-put_index k id count r.by_id, same) at h) in
              (
                e,
                rw (get_elem?-snoc r.objects e p) (ground (arith, last)),
                refl,
                ground (arith, eq_iff id k),
              )
          | inr other ↦
              let (x, at_p, o, is_k) =
                old.found k p (rw (find_index-put_index k id count r.by_id, other) at h) in
              (x, get_elem?-snoc_some r.objects e p at_p, o, is_k)
        ];
      }

  -- The object of a pointer is shut, and its id is erased.
  pub erase-IsOwned :
      (p : ℕ) (e : Entry A) (r : Registry A)
      → IsOwned r
      → get_elem? r.objects p ≡ some e
      → e.closed ≡ false
      → IsOwned (record {
        objects = set r.objects p (shut e);
        by_id = erase_index e.id r.by_id;
        notified = r.notified;
      })
  erase-IsOwned p e r old at_p is_open = record {
    live = λ q x h o. elim (Bool-cases (eqb p q)) [
      | inl here ↦
          let same : shut e ≡ x =
            some-injective (rw (get_elem?-set r.objects p q (shut e) at_p, here) at h) in
          absurd (ground (arith, ap (λ (y : Entry A). y.closed) same, o))
      | inr there ↦
          let known = old.live q x (rw (get_elem?-set r.objects p q (shut e) at_p, there) at h) o in
          let mine = old.live p e at_p is_open in
          rw (find_index-erase_index x.id e.id r.by_id)
            (ground (arith, eq_iff e.id x.id, known, mine, there))
    ];
    found = λ k q h.
        (let differs : (e.id == k) ≡ false =
            ground (arith, h, find_index-erase_index k e.id r.by_id) in
          let (x, at_q, o, is_k) =
            old.found k q (rw (find_index-erase_index k e.id r.by_id, differs) at h) in
          elim (Bool-cases (eqb p q)) [
            | inl here ↦
                let p_is_q : p ≡ q = ground (arith, here) in
                let same : e ≡ x =
                  some-injective (sym at_p ∙ ap (get_elem? r.objects) p_is_q ∙ at_q) in
                absurd
                  (ground (arith, eq_iff e.id k, ap (λ (y : Entry A). y.id) same, is_k, differs))
            | inr there ↦ (x, rw (get_elem?-set r.objects p q (shut e) at_p, there) at_q, o, is_k)
          ]);
  }

  pub close-IsOwned : (p : ℕ) (r : Registry A) → IsOwned r → IsOwned (close p r).0
  unfolding close
  close-IsOwned p r old = elim (Option-cases (get_elem? r.objects p)) [
    | inl missing ↦ rw (missing, close) old
    | inr (e, at_p) ↦ elim (Bool-cases e.closed) [
      | inl already ↦ rw (at_p, already, close) old
      | inr is_open ↦ rw (at_p, is_open, close) (erase-IsOwned p e r old at_p is_open)
    ]
  ]

  -- There is no open object at the position.
  abbrev pub IsShut : ℕ → Registry A → Type ℓ
  IsShut p r = (e : Entry A) → get_elem? r.objects p ≡ some e → e.closed ≡ true

  -- TransportClosed does nothing, or shuts the object and calls its listener.
  pub data Closing (p : ℕ) (r t : Registry A) : Type ℓ where
    was_shut : IsShut p r → t ≡ r → Closing p r t
    shuts :
        (e : Entry A)
        → get_elem? r.objects p ≡ some e
        → e.closed ≡ false
        → t ≡ record {
          objects = set r.objects p (shut e);
          by_id = r.by_id;
          notified = p ∷ r.notified;
        }
        → Closing p r t

  pub transport_closed-Closing : (p : ℕ) (r : Registry A) → Closing p r (transport_closed p r)
  transport_closed-Closing p r = elim (Option-cases (get_elem? r.objects p)) [
    | inl missing ↦
        was_shut (λ x h. absurd (ground (arith, missing, h)))
          (unfold transport_closed in rw (missing, transport_closed) refl)
    | inr (e, at_p) ↦ elim (Bool-cases e.closed) [
      | inl already ↦
          was_shut
            (λ x h.
              subst (λ (y : Entry A). y.closed ≡ true) (some-injective (sym at_p ∙ h)) already)
            (unfold transport_closed in rw (at_p, already, transport_closed) refl)
      | inr is_open ↦
          shuts e at_p is_open
            (unfold transport_closed in rw (at_p, is_open, transport_closed) refl)
    ]
  ]

  -- A shut object stays shut, and the object itself is shut.
  shut-IsShut :
      (p q : ℕ) (e : Entry A) (r : Registry A) (log : List ℕ)
      → get_elem? r.objects p ≡ some e
      → (eqb p q ≡ false → IsShut q r)
      → IsShut q (record { objects = set r.objects p (shut e); by_id = r.by_id; notified = log })
  shut-IsShut p q e r log at_p before x h = elim (Bool-cases (eqb p q)) [
    | inl here ↦
        let same : shut e ≡ x =
          some-injective (rw (get_elem?-set r.objects p q (shut e) at_p, here) at h) in
        sym (ap (λ (y : Entry A). y.closed) same)
    | inr there ↦ before there x (rw (get_elem?-set r.objects p q (shut e) at_p, there) at h)
  ]

  transport_closed-IsShut : (p : ℕ) (r : Registry A) → IsShut p (transport_closed p r)
  transport_closed-IsShut p r = elim (transport_closed-Closing p r) [
    | was_shut s same ↦ subst (IsShut p) (sym same) s
    | shuts e at_p is_open same ↦
        subst (IsShut p) (sym same)
          (shut-IsShut p p e r (p ∷ r.notified) at_p (λ differs. absurd (ground (arith, differs))))
  ]

  transport_closed-keeps : (p q : ℕ) (r : Registry A) → IsShut q r → IsShut q (transport_closed p r)
  transport_closed-keeps p q r before = elim (transport_closed-Closing p r) [
    | was_shut s same ↦ subst (IsShut q) (sym same) before
    | shuts e at_p is_open same ↦
        subst (IsShut q) (sym same) (shut-IsShut p q e r (p ∷ r.notified) at_p (λ _. before))
  ]

  close_all_of-keeps :
      (index : Index) (q : ℕ) (r : Registry A) → IsShut q r → IsShut q (close_all_of index r)
  unfolding close_all_of
  close_all_of-keeps [] q r h = h
  close_all_of-keeps ((id, p) ∷ rest) q r h =
      close_all_of-keeps rest q (transport_closed p r) (transport_closed-keeps p q r h)

  close_all_of-shuts :
      (index : Index) (id : String) (q : ℕ) (r : Registry A)
      → find_index id index ≡ some q
      → IsShut q (close_all_of index r)
  unfolding close_all_of find_index
  close_all_of-shuts [] id q r h = absurd (ground (arith, h))
  close_all_of-shuts ((k, p) ∷ rest) id q r h = elim (Bool-cases (k == id)) [
    | inl same ↦
        let this : p ≡ q = some-injective (rw same at h) in
        close_all_of-keeps rest q (transport_closed p r)
          (subst (λ i. IsShut i (transport_closed p r)) this (transport_closed-IsShut p r))
    | inr other ↦ close_all_of-shuts rest id q (transport_closed p r) (rw other at h)
  ]

  -- Closing the objects of the map leaves no open object.
  pub close_all-IsShut : (r : Registry A) → IsOwned r → (q : ℕ) → IsShut q (close_all r)
  unfolding close_all
  close_all-IsShut r old q = elim (Option-cases (get_elem? r.objects q)) [
    | inl missing ↦ close_all_of-keeps r.by_id q r (λ x h. absurd (ground (arith, missing, h)))
    | inr (e, at_q) ↦ elim (Bool-cases e.closed) [
      | inl already ↦
          close_all_of-keeps r.by_id q r (λ x h.
            subst (λ (y : Entry A). y.closed ≡ true) (some-injective (sym at_q ∙ h)) already)
      | inr is_open ↦ close_all_of-shuts r.by_id e.id q r (old.live q e at_q is_open)
    ]
  ]

  -- Close of an object that is not open does nothing.
  pub close_shut : (p : ℕ) (r : Registry A) → IsShut p r → close p r ≡ (r, none)
  close_shut p r shut_p = elim (Option-cases (get_elem? r.objects p)) [
    | inl missing ↦ unfold close in rw (missing, close) refl
    | inr (e, at_p) ↦ unfold close in rw (at_p, shut_p e at_p, close) refl
  ]
