-- ===== src/Daemon/Driver/Release.antt =====
-- unprepareOne on the enrollment tokens.
use thunder_device_plugin.Base.{
  ℕ, ◌≡◌, ◌∙◌, ap, false, Option, none, some, List, Str, ok, Option-branch, if-branch, is_nil,
  is_blank, arith,
}
use thunder_device_plugin.Daemon.Driver.Types.{NamespacedObject, ThunderClient, Stores, DriverError}
use thunder_device_plugin.Daemon.Driver.Claims.{
  recorded_artifacts, delete_client, release_guest, release_device, release_token, staged_client,
  release_client, unprepare_claim,
}
use thunder_device_plugin.Daemon.Driver.Accounts.{without, Accounts}

-- If a call ended well, the live tokens are these.
abbrev Ends : {W : Type 0} → (W → List Str) → List Str → Option DriverError × W → Type 0
Ends live tokens (r, w) = r ≡ none → live w ≡ tokens

not_ended : {A B : Type 0} {x : A} → some x ≡ none → B
not_ended h = absurd (cc)

module _ {W : Type 0} {clock : W → ℕ × W} {s : Stores W} (acc : Accounts clock s) where
  live-delete_client : (uid : Str) (w : W) → acc.live (delete_client s uid w).1 ≡ acc.live w
  unfolding delete_client
  live-delete_client uid w = acc.live-delete uid w

  release_guest-Ends :
      (claim : NamespacedObject) (c : ThunderClient) (w : W)
      → Ends acc.live (acc.live w) (release_guest s claim c w)
  unfolding release_guest
  release_guest-Ends claim c w =
      let g = recorded_artifacts claim c in
      Option-branch (Ends acc.live (acc.live w)) (s.guest.remove g w).0 _ _
        (λ done h. live-delete_client claim.uid (s.guest.remove g w).1 ∙ acc.live-remove_guest g w)
        (λ fault failed h. not_ended h)

  release_device-Ends :
      (claim : NamespacedObject) (c : ThunderClient) (w : W)
      → Ends acc.live (acc.live w) (release_device s claim c w)
  unfolding release_device
  release_device-Ends claim c w =
      if-branch (Ends acc.live (acc.live w)) (is_blank c.cdi_name) _ _
        (λ blank. release_guest-Ends claim c w)
        (λ named.
          Option-branch (Ends acc.live (acc.live w)) (s.cdi.remove c.cdi_name w).0 _ _
            (λ done h. release_guest-Ends claim c _ h ∙ acc.live-remove_device c.cdi_name w)
            (λ fault failed h. not_ended h))

  release_token-Ends :
      (claim : NamespacedObject) (c : ThunderClient) (w : W)
      → is_blank c.enrollment_token_id ≡ false
      → Ends acc.live (without c.enrollment_token_id (acc.live w)) (release_token s claim c w)
  unfolding release_token
  release_token-Ends claim c w shown =
      let id = c.enrollment_token_id in
      if-branch (Ends acc.live (without id (acc.live w))) (is_blank id) _ _ (λ blank h. cc)
        (λ named.
          Option-branch (Ends acc.live (without id (acc.live w))) (s.tokens.revoke id w).0 _ _
            (λ done h. release_device-Ends claim c _ h ∙ acc.revoke_ok id w named done)
            (λ fault failed h. not_ended h))

  live-staged_client : (c : ThunderClient) (w : W) → acc.live (staged_client s c w).1 ≡ acc.live w
  unfolding staged_client
  live-staged_client c w = ground (arith, acc.live-staged c.cdi_name w)

  release_client-Ends :
      (claim : NamespacedObject) (c : ThunderClient) (w : W)
      → is_blank c.enrollment_token_id ≡ false
      → Ends acc.live (without c.enrollment_token_id (acc.live w)) (release_client s claim c w)
  unfolding release_client
  release_client-Ends claim c w shown =
      let id = c.enrollment_token_id in
      let (client_id, w₁) = staged_client s c w in
      let same = live-staged_client c w in
      if-branch (Ends acc.live (without id (acc.live w))) (is_nil client_id) _ _
        (λ blank h. release_token-Ends claim c w₁ shown h ∙ ap (without id) same)
        (λ named.
          Option-branch (Ends acc.live (without id (acc.live w)))
            (s.tokens.revoke_client client_id w₁).0 _ _
            (λ done h.
              release_token-Ends claim c _ shown h
              ∙ ap (without id) (acc.live-revoke_client client_id w₁ ∙ same))
            (λ fault failed h. not_ended h))

  unprepare_claim_found :
      (claim : NamespacedObject) (w : W) (c : ThunderClient)
      → (s.clients.get claim.uid w).0 ≡ ok c
      → unprepare_claim s claim w ≡ release_client s claim c (s.clients.get claim.uid w).1
  unfolding unprepare_claim
  unprepare_claim_found claim w c found = rw (found, unprepare_claim)

  -- Where the stores keep the Accounts laws, unpreparing a claim without an error revokes the
  -- enrollment token that its ThunderClient records, if that is not blank, and no other.
  pub unprepare_claim_revokes :
      (claim : NamespacedObject) (w : W) (c : ThunderClient)
      → (s.clients.get claim.uid w).0 ≡ ok c
      → is_blank c.enrollment_token_id ≡ false
      → (unprepare_claim s claim w).0 ≡ none
      → acc.live (unprepare_claim s claim w).1 ≡ without c.enrollment_token_id (acc.live w)
  unprepare_claim_revokes claim w c found shown h =
      let step = unprepare_claim_found claim w c found in
      rw step (
        release_client-Ends claim c _ shown (rw step at h)
        ∙ ap (without c.enrollment_token_id) (acc.live-get claim.uid w))
