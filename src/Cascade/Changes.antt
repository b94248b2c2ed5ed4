-- ===== src/Cascade/Changes.antt =====
-- What each call on `BatchCertifier` of src/cascade.rs leaves of the certificates, in the certifier and
-- in the flow graph.
use silver_consensus.Base.{
  ℕ, ◌≡◌, refl, inl, inr, Bool, true, false, none, some, List, [], ◌∷◌, ◌==◌, arith, Bool-cases,
  eq_of_test,
}
use silver_consensus.Base.Dict.{lookup, lookup-insert}
use silver_consensus.Core.{BatchApi, MetadataApi, CertificateApi}
use silver_consensus.Cascade.Holding.{
  Holds, add_batch-Holds, set_certificate-Holds, set_certificate-Holds_new,
}
use silver_consensus.Cascade.Certifier.{BatchCertifier, clear_old_pending}
use silver_consensus.Cascade.Signing.{
  Call, sign, clear, grow, reconfigure, replace, apply, IsHonest, IsCertifying, IsChange, same,
  made,
}
use silver_consensus.Cascade.Signatures.{sign-IsChange}

module _ (bt : BatchApi) (md : MetadataApi) (ct : CertificateApi) where
  -- whether the graph is changed other than by new batches
  unfoldable pub replaces : List (Call bt md) → Bool
  replaces [] = false
  replaces (replace g ∷ cs) = true
  replaces (_ ∷ cs) = replaces cs

  -- the graph has the certificates that the certifier has
  abbrev pub AreHeld : BatchCertifier bt md ct → Type 0
  AreHeld m = (id c : ℕ) → lookup id m.certified_batches ≡ some c → Holds bt id c m.flow_graph

  kept_by_change :
      (id c : ℕ) (seen : List (Call bt md)) (m m' : BatchCertifier bt md ct) (k : Call bt md)
      → IsChange bt md ct seen m k m'
      → lookup id m.certified_batches ≡ some c
      → lookup id m'.certified_batches ≡ some c
  kept_by_change id c seen m m' k (same e g) h = rw e h
  kept_by_change id c seen m m' k (made b d is fresh e g) h =
      ground (arith, h, e, fresh, eq_of_test id b, lookup-insert b id d m.certified_batches)

  -- a certificate that a change brings is the one that the call gives
  new_by_change :
      (id c : ℕ) (seen : List (Call bt md)) (m m' : BatchCertifier bt md ct) (k : Call bt md)
      → IsChange bt md ct seen m k m'
      → lookup id m.certified_batches ≡ none
      → lookup id m'.certified_batches ≡ some c
      → IsCertifying bt md ct id c seen m k
  new_by_change id c seen m m' k (same e g) h found = ground (arith, e, h, found)
  new_by_change id c seen m m' k (made b d is fresh e g) h found = elim (Bool-cases (id == b)) [
    | inl y ↦
        let at : id ≡ b = eq_of_test id b y in
        let one : c ≡ d = ground (arith, found, e, y, lookup-insert b id d m.certified_batches) in
        rw (at, one) is
    | inr n ↦ ground (arith, h, found, e, n, lookup-insert b id d m.certified_batches)
  ]

  held_by_change :
      (seen : List (Call bt md)) (m m' : BatchCertifier bt md ct) (k : Call bt md)
      → IsChange bt md ct seen m k m'
      → AreHeld m
      → AreHeld m'
  held_by_change seen m m' k (same e g) s id c h = rw g (s id c (rw⁻¹ e h))
  held_by_change seen m m' k (made b d is fresh e g) s id c h = elim (Bool-cases (id == b)) [
    | inl y ↦
        let at : id ≡ b = eq_of_test id b y in
        let one : c ≡ d = ground (arith, h, e, y, lookup-insert b id d m.certified_batches) in
        rw (at, one, g) (set_certificate-Holds_new bt b d m.flow_graph is.in_graph)
    | inr n ↦
        let old : lookup id m.certified_batches ≡ some c =
          ground (arith, h, e, n, lookup-insert b id d m.certified_batches) in
        rw g (set_certificate-Holds bt id c b d m.flow_graph n (s id c old))
  ]

  -- what the calls other than a signature leave
  same_certified :
      (m : BatchCertifier bt md ct)
      → ((clear_old_pending bt md ct m).certified_batches ≡ m.certified_batches)
        × ((clear_old_pending bt md ct m).flow_graph ≡ m.flow_graph)
  unfolding clear_old_pending
  same_certified m = ground arith

  pub kept :
      (id c : ℕ) (seen : List (Call bt md)) (k : Call bt md) (m : BatchCertifier bt md ct)
      → IsHonest bt md ct seen m
      → lookup id m.certified_batches ≡ some c
      → lookup id (apply bt md ct k m).certified_batches ≡ some c
  unfolding apply
  kept id c seen (sign b s t) m honest h =
      kept_by_change id c seen m _ (sign b s t) (sign-IsChange bt md ct b t s seen m honest) h
  kept id c seen clear m honest h = rw ((same_certified m).0) h
  kept id c seen (grow b now later) m honest h = h
  kept id c seen (reconfigure s) m honest h = h
  kept id c seen (replace g) m honest h = h

  pub brought :
      (id c : ℕ) (seen : List (Call bt md)) (k : Call bt md) (m : BatchCertifier bt md ct)
      → IsHonest bt md ct seen m
      → lookup id m.certified_batches ≡ none
      → lookup id (apply bt md ct k m).certified_batches ≡ some c
      → IsCertifying bt md ct id c seen m k
  unfolding apply
  brought id c seen (sign b s t) m honest h found =
      new_by_change id c seen m _ (sign b s t) (sign-IsChange bt md ct b t s seen m honest) h found
  brought id c seen clear m honest h found = ground (arith, (same_certified m).0, h, found)
  brought id c seen (grow b now later) m honest h found = ground (arith, h, found)
  brought id c seen (reconfigure s) m honest h found = ground (arith, h, found)
  brought id c seen (replace g) m honest h found = ground (arith, h, found)

  pub apply-held :
      (seen : List (Call bt md)) (k : Call bt md) (m : BatchCertifier bt md ct)
      → IsHonest bt md ct seen m
      → replaces (k ∷ []) ≡ false
      → AreHeld m
      → AreHeld (apply bt md ct k m)
  unfolding apply replaces
  apply-held seen (sign b s t) m honest none_replaced h =
      held_by_change seen m _ (sign b s t) (sign-IsChange bt md ct b t s seen m honest) h
  apply-held seen clear m honest none_replaced h =
      held_by_change seen m (clear_old_pending bt md ct m) clear
        (same ((same_certified m).0) ((same_certified m).1)) h
  apply-held seen (grow b now later) m honest none_replaced h =
      λ id c found. add_batch-Holds bt id c now later b m.flow_graph (h id c found)
  apply-held seen (reconfigure s) m honest none_replaced h = h
  apply-held seen (replace g) m honest none_replaced h = cc

  pub replaces-cons :
      (k : Call bt md) (cs : List (Call bt md))
      → replaces (k ∷ []) ≡ true
      → replaces (k ∷ cs) ≡ true
  unfolding replaces
  replaces-cons (sign b s t) cs h = cc
  replaces-cons clear cs h = cc
  replaces-cons (grow b now later) cs h = cc
  replaces-cons (reconfigure s) cs h = cc
  replaces-cons (replace g) cs h = refl

  pub replaces_later :
      (k : Call bt md) (cs : List (Call bt md)) → replaces cs ≡ true → replaces (k ∷ cs) ≡ true
  unfolding replaces
  replaces_later (sign b s t) cs h = h
  replaces_later clear cs h = h
  replaces_later (grow b now later) cs h = h
  replaces_later (reconfigure s) cs h = h
  replaces_later (replace g) cs h = refl
