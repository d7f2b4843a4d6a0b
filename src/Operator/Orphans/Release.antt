-- ===== src/Operator/Orphans/Release.antt =====
-- reap: the calls that revoke a token and release a finalizer.
use thunder_device_plugin.Base.{
  ◌≡◌, refl, ◌∙◌, Bool, false, Option, none, some, List, Str, text_eq, Option-branch, if-branch,
  is_nil, length, eqb, ◌⊎◌, inl, inr,
}
use thunder_device_plugin.Operator.Orphans.Defs.{
  ClientObject, ClientResource, Reaper, ReapError, revoke, release, reap, without_finalizer, real,
  is_gone,
}

-- What is observed of the cluster: the tokens in force and the objects that are there. Only
-- UnenrollClient changes tokens, and it does not touch objects; an answer without an error, and one
-- that the token is gone, mean that the token is not in force.
pub record Laws {W : Type 0} (o : Reaper W) (resource : ClientResource W)
    (in_force : W → Str → Bool) (objects : W → List ClientObject) : Type 0 where
  pub unenroll_objects : (token : Str) (w : W) → objects (o.unenroll_client token w).1 ≡ objects w
  pub unenroll_revokes :
      (token : Str) (w : W)
      → real is_gone (o.unenroll_client token w).0 ≡ none
      → in_force (o.unenroll_client token w).1 token ≡ false
  pub update_tokens :
      (item : ClientObject) (w : W) (token : Str)
      → in_force (resource.update item w).1 token ≡ in_force w token
  pub delete_tokens :
      (namespace name : Str) (w : W) (token : Str)
      → in_force (resource.delete namespace name w).1 token ≡ in_force w token

module _ {W : Type 0} (o : Reaper W) (resource : ClientResource W) (in_force : W → Str → Bool)
    (objects : W → List ClientObject) (laws : Laws o resource in_force objects) where
  -- Without an error, the item's token is not in force any more; with one, either that is so or no
  -- object has changed.
  abbrev pub IsSafe : ClientObject → W → Option ReapError × W → Type 0
  IsSafe item w (none, w') = in_force w' item.token_id ≡ false
  IsSafe item w (some e, w') = (in_force w' item.token_id ≡ false) ⊎ (objects w' ≡ objects w)

  IsSafe-revoked :
      (item : ClientObject) (w : W) (r : Option ReapError × W)
      → in_force r.1 item.token_id ≡ false
      → IsSafe item w r
  IsSafe-revoked item w (none, w') h = h
  IsSafe-revoked item w (some e, w') h = inl h

  -- revoke: no error means no token, an error means the same objects.
  Revoked : ClientObject → W → Option ReapError × W → Type 0
  Revoked item w (none, w') = in_force w' item.token_id ≡ false
  Revoked item w (some e, w') = objects w' ≡ objects w

  Revoked-none :
      (item : ClientObject) (w : W) (r : Option ReapError × W)
      → r.0 ≡ none
      → Revoked item w r
      → in_force r.1 item.token_id ≡ false
  unfolding Revoked
  Revoked-none item w (none, w') fine h = h
  Revoked-none item w (some e, w') fine h = cc

  Revoked-some :
      (item : ClientObject) (w : W) (r : Option ReapError × W) (e : ReapError)
      → r.0 ≡ some e
      → Revoked item w r
      → objects r.1 ≡ objects w
  unfolding Revoked
  Revoked-some item w (none, w') e failed h = cc
  Revoked-some item w (some e', w') e failed h = h

  revoke_lem :
      (item : ClientObject) (w : W)
      → is_nil item.token_id ≡ false
      → Revoked item w (revoke o item w)
  unfolding revoke Revoked
  revoke_lem item w tokened =
      let (answer, w') = o.unenroll_client item.token_id w in
      rw tokened (
        Option-branch (λ a. Revoked item w (a, w')) (real is_gone answer) _ _
          (λ fine. laws.unenroll_revokes item.token_id w fine)
          (λ fault failed. laws.unenroll_objects item.token_id w))

  release_keeps :
      (item : ClientObject) (w : W) (token : Str)
      → in_force (release o resource item w).1 token ≡ in_force w token
  unfolding release
  release_keeps item w token =
      let kept = without_finalizer item.finalizers in
      let KeepsToken : Option ReapError × W → Type 0 = λ r. in_force r.1 token ≡ in_force w token in
      if-branch KeepsToken (eqb (length kept) (length item.finalizers)) _ _ (λ same. refl)
        (λ dropped. laws.update_tokens (record item { finalizers = kept }) w token)

  -- On a cluster that keeps the Laws, reap of a client that has an enrollment token: where it reports no error, the token is not in
  -- force any more; where it reports one, either the token is not in force, or the clients' objects
  -- are as they were, so that the finalizer still holds the record of the enrollment.
  pub reap-IsSafe :
      (item : ClientObject) (w : W)
      → is_nil item.token_id ≡ false
      → IsSafe item w (reap o resource item w)
  unfolding reap Revoked
  reap-IsSafe item w tokened =
      let h = revoke_lem item w tokened in
      let w₁ = (revoke o item w).1 in
      Option-branch (IsSafe item w) (revoke o item w).0 _ _
        (λ fine.
          let off = Revoked-none item w (revoke o item w) fine h in
          let off₂ = release_keeps item w₁ item.token_id ∙ off in
          let w₂ = (release o resource item w₁).1 in
          Option-branch (IsSafe item w) (release o resource item w₁).0 _ _
            (λ released.
              IsSafe-revoked item w _
                (laws.delete_tokens item.namespace item.name w₂ item.token_id ∙ off₂))
            (λ e failed. inl off₂))
        (λ e failed. inr (Revoked-some item w (revoke o item w) e failed h))
