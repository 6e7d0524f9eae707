-- ===== src/Ortc/Extended/Found.antt =====
-- The search for a local codec that matches a remote one, in getExtendedRtpCapabilities of
-- src/ortc.cpp.
use libmediasoupclient.Prelude.{
  Option, true, none, some, ◌≡◌, refl, arith, ap, subst, inl, inr, Option-cases, some-injective,
}
use libmediasoupclient.Prelude.Result.{ok, >>=-eq-ok, ok-injective}
use libmediasoupclient.Json.{object, Items, nil, cons, Fields}
use libmediasoupclient.Ortc.Matching.{H264, match_codecs}
use libmediasoupclient.Ortc.Extended.{find_local}

module _ (h264 : H264) where
  -- No local codec matches the remote one.
  pub data NoMatch (remote : Fields) : Items → Type 0 where
    done : NoMatch remote nil
    more :
        {locals : Items} (local : Fields)
        → match_codecs h264 true true local remote ≡ ok none
        → NoMatch remote locals
        → NoMatch remote (cons (object local) locals)

  -- The first of the local codecs that matches the remote one, as it is before and after the match,
  -- and the local codecs before and after it.
  pub data FirstMatch (remote local local' : Fields) : Items → Items → Type 0 where
    here :
        {locals : Items}
        → match_codecs h264 true true local remote ≡ ok (some local')
        → FirstMatch remote local local' (cons (object local) locals) (cons (object local') locals)
    there :
        {locals locals' : Items} (other : Fields)
        → match_codecs h264 true true other remote ≡ ok none
        → FirstMatch remote local local' locals locals'
        → FirstMatch remote local local' (cons (object other) locals) (cons (object other) locals')

  pub find_local-NoMatch :
      (remote : Fields) (locals : Items)
      → find_local h264 remote locals ≡ ok none
      → NoMatch remote locals
  unfolding find_local
  find_local-NoMatch remote nil h = done
  find_local-NoMatch remote (cons (object local) locals) h =
      let (m, e, h₁) = >>=-eq-ok (match_codecs h264 true true local remote) _ h in
      elim (Option-cases m) [
        | inr (local', is_some) ↦ absurd (cc (rw is_some at h₁))
        | inl is_none ↦
            let (l, e', h₂) = >>=-eq-ok (find_local h264 remote locals) _ (rw is_none at h₁) in
            elim (Option-cases l) [
              | inl missing ↦
                  more local (rw (e, is_none) refl)
                    (find_local-NoMatch remote locals (rw (e', missing) refl))
              | inr (found, is_there) ↦ absurd (cc (rw is_there at h₂))
            ]
      ]
  find_local-NoMatch remote (cons _ locals) h = absurd (ground arith)

  -- The local codec that a search finds is the first that matches.
  pub record Found (remote found : Fields) (locals locals' : Items) : Type 0 where
    pub local : Fields
    pub matched : match_codecs h264 true true local remote ≡ ok (some found)
    pub first : FirstMatch remote local found locals locals'

  matched_head :
      (remote local local' found : Fields) (locals rest : Items)
      → match_codecs h264 true true local remote ≡ ok (some local')
      → ◌≡◌ {A = Option (Fields × Items)}
          (some (local', cons (object local') locals))
          (some (found, rest))
      → Found remote found (cons (object local) locals) rest
  matched_head remote local local' found locals rest matched h =
      let same : ◌≡◌ {A = Fields × Items} (local', cons (object local') locals) (found, rest) =
        some-injective h in
      let same_found = ap (λ (t : Fields × Items). t.0) same in
      let same_rest = ap (λ (t : Fields × Items). t.1) same in
      subst (λ f. Found remote f (cons (object local) locals) rest) same_found
        (subst (Found remote local' (cons (object local) locals)) same_rest
          (record { local = local; matched = matched; first = here matched }))

  pub find_local-Found :
      (remote : Fields) (locals : Items) (found : Fields) (rest : Items)
      → find_local h264 remote locals ≡ ok (some (found, rest))
      → Found remote found locals rest
  unfolding find_local
  find_local-Found remote nil found rest h = absurd (ground arith)
  find_local-Found remote (cons (object local) locals) found rest h =
      let (m, e, h₁) = >>=-eq-ok (match_codecs h264 true true local remote) _ h in
      elim (Option-cases m) [
        | inr (local', is_some) ↦
            matched_head remote local local' found locals rest (rw (e, is_some) refl)
              (ok-injective (rw is_some at h₁))
        | inl is_none ↦
            let (l, e', h₂) = >>=-eq-ok (find_local h264 remote locals) _ (rw is_none at h₁) in
            elim (Option-cases l) [
              | inl missing ↦ absurd (cc (rw missing at h₂))
              | inr ((f, r), is_there) ↦
                  let same : ◌≡◌ {A = Fields × Items} (f, cons (object local) r) (found, rest) =
                    some-injective (ok-injective (rw is_there at h₂)) in
                  let same_found = ap (λ (t : Fields × Items). t.0) same in
                  let same_rest = ap (λ (t : Fields × Items). t.1) same in
                  let later = find_local-Found remote locals f r (rw (e', is_there) refl) in
                  subst (λ x. Found remote x (cons (object local) locals) rest) same_found
                    (subst (Found remote f (cons (object local) locals)) same_rest (record {
                      local = later.local;
                      matched = later.matched;
                      first = there local (rw (e, is_none) refl) later.first;
                    }))
            ]
      ]
  find_local-Found remote (cons _ locals) found rest h = absurd (ground arith)
