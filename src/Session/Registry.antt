-- ===== src/Session/Registry.antt =====
-- The objects that a transport of src/Transport.cpp has made, and its map from ids to those that it
-- owns. src/Producer.cpp, src/Consumer.cpp, src/DataProducer.cpp and src/DataConsumer.cpp have the
-- same Close and TransportClosed: this is their common part, over the rest of an object.
pub mod Kept
pub mod Notified
pub mod Owned
use libmediasoupclient.Prelude.{
  ℕ, zero, suc, String, Bool, true, false, List, [], ◌∷◌, ◌++◌, Option, none, some, if◌then◌else◌,
}
use libmediasoupclient.Prelude.Lists.{length, get_elem?, set}
use libmediasoupclient.Index.{Index, find_index, put_index, erase_index}

-- An object, with the flag `closed`.
pub record Entry {ℓ} (A : Type ℓ) : Type ℓ where
  pub id : String
  pub local_id : String
  pub closed : Bool
  pub value : A

-- A pointer is the position of its object. `transport_closed` has the objects whose listener was
-- called by OnTransportClose, the latest first.
pub record Registry {ℓ} (A : Type ℓ) : Type ℓ where
  pub objects : List (Entry A)
  pub by_id : Index
  pub notified : List ℕ

module _ {ℓ} {A : Type ℓ} where
  unfoldable pub empty : Registry A
  empty = record { objects = []; by_id = []; notified = [] }

  -- A new object with its flag, and `this->producers[producer->GetId()] = producer`.
  unfoldable pub register_as : Bool → String → String → A → Registry A → Registry A
  register_as closed id local_id value r = record {
    objects =
        r.objects ++ record { id = id; local_id = local_id; closed = closed; value = value } ∷ [];
    by_id = put_index id (length r.objects) r.by_id;
    notified = r.notified;
  }

  unfoldable pub register : String → String → A → Registry A → Registry A
  unfolding register_as
  register id local_id value r = register_as false id local_id value r

  abbrev pub shut : Entry A → Entry A
  shut e = record e { closed = true }

  -- Close of an object, and the erasure of its id by OnClose of the transport; with the object if it
  -- was open until now.
  unfoldable pub close : ℕ → Registry A → Registry A × Option (Entry A)
  close p r = elim (get_elem? r.objects p) [
    | none ↦ (r, none)
    | some e ↦ if e.closed then (r, none) else (
      record {
        objects = set r.objects p (shut e);
        by_id = erase_index e.id r.by_id;
        notified = r.notified;
      },
      some e,
    )
  ]

  -- TransportClosed of an object.
  unfoldable pub transport_closed : ℕ → Registry A → Registry A
  transport_closed p r = elim (get_elem? r.objects p) [
    | none ↦ r
    | some e ↦ if e.closed then r else record {
      objects = set r.objects p (shut e);
      by_id = r.by_id;
      notified = p ∷ r.notified;
    }
  ]

  -- The loop of the transport's Close over the objects of its map.
  unfoldable pub close_all_of : Index → Registry A → Registry A
  close_all_of [] r = r
  close_all_of ((id, p) ∷ rest) r = close_all_of rest (transport_closed p r)

  unfoldable pub close_all : Registry A → Registry A
  close_all r = close_all_of r.by_id r
