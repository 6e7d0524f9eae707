-- ===== src/Session/Registry/Notified.antt =====
-- Which listeners Close of a transport of src/Transport.cpp calls by OnTransportClose.
use libmediasoupclient.Prelude.{
  ℕ, ◌+◌, String, Bool, true, false, not, ◌&&◌, ◌||◌, List, [], ◌∷◌, Option, none, some, ◌≡◌, ◌∙◌,
  eqb, if◌then◌else◌, refl, arith, ap, sym, subst, inl, inr, Option-cases,
}
use libmediasoupclient.Prelude.Lists.{get_elem?, get_elem?-set}
use libmediasoupclient.Index.{Index, find_index}
use libmediasoupclient.Session.Registry.{
  Entry, Registry, shut, transport_closed, close_all_of, close_all,
}
use libmediasoupclient.Session.Registry.Owned.{
  IsOwned, IsShut, was_shut, shuts, transport_closed-Closing, close_all-IsShut,
}

abbrev pub count : ℕ → List ℕ → ℕ
count p [] = 0
count p (q ∷ qs) = (if eqb q p then 1 else 0) + count p qs

abbrev has_pointer : ℕ → Index → Bool
has_pointer p [] = false
has_pointer p ((k, q) ∷ rest) = eqb q p || has_pointer p rest

find_index-has_pointer :
    (id : String) (p : ℕ) (index : Index)
    → find_index id index ≡ some p
    → has_pointer p index ≡ true
unfolding find_index
find_index-has_pointer id p [] h = absurd (ground (arith, h))
find_index-has_pointer id p ((k, q) ∷ rest) h = ground (arith, h, find_index-has_pointer id p rest)

module _ {ℓ} {A : Type ℓ} where
  abbrev pub is_open : Option (Entry A) → Bool
  is_open none = false
  is_open (some e) = not e.closed

  abbrev pub open_at : ℕ → Registry A → Bool
  open_at p r = is_open (get_elem? r.objects p)

  IsShut-open_at : (p : ℕ) (r : Registry A) → IsShut p r → open_at p r ≡ false
  IsShut-open_at p r h = elim (Option-cases (get_elem? r.objects p)) [
    | inl missing ↦ rw missing refl
    | inr (e, at_p) ↦ rw at_p (ground (arith, h e at_p))
  ]

  -- What TransportClosed of one object changes for another.
  record Told (p q : ℕ) (r t : Registry A) : Type ℓ where
    counted : count p t.notified ≡ (if eqb q p && open_at p r then 1 else 0) + count p r.notified
    opened : open_at p t ≡ not (eqb q p) && open_at p r

  transport_closed-Told : (p q : ℕ) (r : Registry A) → Told p q r (transport_closed q r)
  transport_closed-Told p q r = elim (transport_closed-Closing q r) [
    | was_shut s same ↦
        let shut_q = IsShut-open_at q r s in
        let shut_p : eqb q p ≡ true → open_at p r ≡ false =
          λ e. subst (λ i. open_at i r ≡ false) (ground (arith, e)) shut_q in
        subst (Told p q r) (sym same)
          (record { counted = ground (arith, shut_p); opened = ground (arith, shut_p) })
    | shuts e at_q o same ↦
        let open_q : eqb q p ≡ true → open_at p r ≡ true = λ x.
          (let here : q ≡ p = ground (arith, x) in
            let at_p = sym (ap (get_elem? r.objects) here) ∙ at_q in rw at_p (ground (arith, o))) in
        subst (Told p q r) (sym same) (record {
          counted = ground (arith, open_q);
          opened = rw (get_elem?-set r.objects q p (shut e) at_q) (ground arith);
        })
  ]

  count-close_all_of :
      (p : ℕ) (index : Index) (r : Registry A)
      → count p (close_all_of index r).notified
        ≡ (if has_pointer p index && open_at p r then 1 else 0) + count p r.notified
  unfolding close_all_of
  count-close_all_of p [] r = ground arith
  count-close_all_of p ((k, q) ∷ rest) r =
      let told = transport_closed-Told p q r in
      count-close_all_of p rest (transport_closed q r)
      ∙ rw (told.counted, told.opened) (ground arith)

  known_pointer :
      (p : ℕ) (r : Registry A) → IsOwned r → open_at p r ≡ true → has_pointer p r.by_id ≡ true
  known_pointer p r old h = elim (Option-cases (get_elem? r.objects p)) [
    | inl missing ↦ absurd (cc (rw missing at h))
    | inr (e, at_p) ↦
        let is_live : e.closed ≡ false = ground (arith, rw at_p at h) in
        find_index-has_pointer e.id p r.by_id (old.live p e at_p is_live)
  ]

  -- Closing the objects of the map calls the listener of each object that was open once more, and no
  -- other one.
  pub count-close_all :
      (p : ℕ) (r : Registry A)
      → IsOwned r
      → count p (close_all r).notified ≡ (if open_at p r then 1 else 0) + count p r.notified
  unfolding close_all
  count-close_all p r old =
      let known : open_at p r ≡ true → has_pointer p r.by_id ≡ true = known_pointer p r old in
      count-close_all_of p r.by_id r ∙ ground (arith, known)

  -- From one state to the next, every object is shut, and the listener of each object that was open
  -- is called once more.
  pub record IsShutDown (r t : Registry A) : Type ℓ where
    pub all_shut : (p : ℕ) → IsShut p t
    pub told_once :
        (p : ℕ) → count p t.notified ≡ (if open_at p r then 1 else 0) + count p r.notified

  pub close_all-IsShutDown : (r : Registry A) → IsOwned r → IsShutDown r (close_all r)
  close_all-IsShutDown r old = record {
    all_shut = close_all-IsShut r old;
    told_once = λ p. count-close_all p r old;
  }
