-- ===== src/Session/Registry/Kept.antt =====
-- The objects of a transport of src/Transport.cpp, open or closed.
use libmediasoupclient.Prelude.{
  ℕ, String, Bool, true, false, Option, none, ◌≡◌, arith, ap, sym, subst,
}
use libmediasoupclient.Index.{find_index}
use libmediasoupclient.Session.Registry.{Registry, Entry, empty, register, close, close_all}
use libmediasoupclient.Session.Registry.Owned.{
  IsOwned, IsShut, empty-IsOwned, register-IsOwned, close-IsOwned, close_shut,
}
use libmediasoupclient.Session.Registry.Notified.{close_all-IsShutDown}

-- The objects of a registry, for a transport that is open or closed: the map of an open transport has
-- exactly the open ones, and a closed transport has none.
pub record IsKept {ℓ} {A : Type ℓ} (closed : Bool) (r : Registry A) : Type ℓ where
  pub owned : closed ≡ false → IsOwned r
  pub all_shut : closed ≡ true → (p : ℕ) → IsShut p r

module _ {ℓ} {A : Type ℓ} where
  pub empty-IsKept : IsKept {A = A} false empty
  empty-IsKept = record { owned = λ o. empty-IsOwned; all_shut = λ c. absurd (ground (arith, c)) }

  pub register-IsKept :
      (closed : Bool) (id local_id : String) (value : A) (r : Registry A)
      → IsKept closed r
      → closed ≡ false
      → find_index id r.by_id ≡ none
      → IsKept closed (register id local_id value r)
  register-IsKept closed id local_id value r old is_open new = record {
    owned = λ o. register-IsOwned id local_id value r (old.owned o) new;
    all_shut = λ c. absurd (ground (arith, c, is_open));
  }

  pub close-IsKept :
      (closed : Bool) (p : ℕ) (r : Registry A) → IsKept closed r → IsKept closed (close p r).0
  close-IsKept closed p r old = record {
    owned = λ o. close-IsOwned p r (old.owned o);
    all_shut = λ c q.
        (let before = old.all_shut c in
          subst (IsShut q)
            (sym (ap (λ (x : Registry A × Option (Entry A)). x.0) (close_shut p r (before p))))
            (before q));
  }

  pub close_all-IsKept : (r : Registry A) → IsOwned r → IsKept true (close_all r)
  close_all-IsKept r old =
      let down = close_all-IsShutDown r old in
      record { owned = λ o. absurd (ground (arith, o)); all_shut = λ c. down.all_shut }
