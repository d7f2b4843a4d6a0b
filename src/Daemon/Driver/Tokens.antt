-- ===== src/Daemon/Driver/Tokens.antt =====
-- prepareOne and unprepareOne on the enrollment tokens, branch by branch.
use thunder_device_plugin.Base.{
  ℕ, ◌≡◌, refl, ◌∙◌, ap, ◌⊎◌, inl, inr, false, none, some, List, ◌∷◌, Str, Outcome, ok, err, Fault,
  not_found, Outcome-branch, Option-branch, text_eq, str_eq_iff, is_nil, is_blank, arith,
}
use thunder_device_plugin.Daemon.Driver.Types.{
  PreparedDevice, Allocation, ThunderClient, GuestArtifacts, Stores, DriverError,
}
use thunder_device_plugin.Daemon.Driver.Defs.{devices_for, thunder_client_from_allocation}
use thunder_device_plugin.Daemon.Driver.Claims.{
  cdi_install_command, Existing, classify, prepared, unreadable, unprepared, revoke_token,
  remove_guest, remove_cdi, record_client, create_device, create_guest, prepare_new,
  prepare_allocation,
}
use thunder_device_plugin.Daemon.Driver.Accounts.{without, Accounts}

-- A call on a claim, by what it did to the tokens and the record: it failed and the live tokens are
-- `before`, or it gave devices on the CDI device of a record whose token is `token_id`, and the live
-- tokens are `after`.
abbrev pub Settles :
    {W : Type 0} {clock : W → ℕ × W} {s : Stores W} (acc : Accounts clock s) (a : Allocation)
    (token_id : Str) (before after : List Str)
    → Outcome DriverError (List PreparedDevice) × W
    → Type 0
Settles acc a token_id before after (ok devices, w) =
    (acc.live w ≡ after)
    × (c : ThunderClient) × (acc.recorded a.claim_uid w ≡ some c)
    × (c.enrollment_token_id ≡ token_id)
    × (is_nil c.cdi_name ≡ false)
    × (devices ≡ devices_for c.cdi_name a)
Settles acc a token_id before after (err e, w) = acc.live w ≡ before

Existing-branch :
    {B : Type 0} (P : B → Type 0) (x : Existing) (f : Str → B) (g : Fault → B) (b : B)
    → ((name : Str) → x ≡ prepared name → P (f name))
    → ((fault : Fault) → P (g fault))
    → P b
    → P (elim x [ prepared name ↦ f name | unreadable fault ↦ g fault | unprepared ↦ b ])
Existing-branch P (prepared name) f g b h k l = h name refl
Existing-branch P (unreadable fault) f g b h k l = k fault
Existing-branch P unprepared f g b h k l = l

classify_prepared :
    (found : Outcome Fault ThunderClient) (name : Str)
    → classify found ≡ prepared name
    → (c : ThunderClient) × (found ≡ ok c)
      × (c.cdi_name ≡ name)
      × (is_nil c.cdi_name ≡ false)
      × (is_nil c.enrollment_token_id ≡ false)
unfolding classify
classify_prepared (ok c) name h = (c, refl, ground arith, ground arith, ground arith)
classify_prepared (err fault) name h = absurd (ground arith)

-- A claim that was prepared anew: the devices are on the CDI device that its record names, and the
-- record's token is live, and no other token that was not live before.
abbrev pub Prepared :
    {W : Type 0} {clock : W → ℕ × W} {s : Stores W} (acc : Accounts clock s) (a : Allocation)
    (before : List Str)
    → Outcome DriverError (List PreparedDevice) × W
    → Type 0
Prepared acc a before (ok devices, w) =
    (c : ThunderClient) × (acc.recorded a.claim_uid w ≡ some c)
    × (devices ≡ devices_for c.cdi_name a)
    × (is_nil c.cdi_name ≡ false)
    × (is_nil c.enrollment_token_id ≡ false)
    × (acc.live w ≡ c.enrollment_token_id ∷ before)
    × (without c.enrollment_token_id before ≡ before)
    × (is_blank c.enrollment_token_id ≡ false)
Prepared acc a before (err e, w) = acc.live w ≡ before

-- A call on a claim, by its result: when it fails the live tokens are those of before, and when it
-- gives devices they are on the CDI device of the claim's record, whose token is the one live token
-- that is new, if any is.
abbrev pub Accounted :
    {W : Type 0} {clock : W → ℕ × W} {s : Stores W} (acc : Accounts clock s) (a : Allocation)
    (before : List Str)
    → Outcome DriverError (List PreparedDevice) × W
    → Type 0
Accounted acc a before (ok devices, w) =
    (c : ThunderClient) × (acc.recorded a.claim_uid w ≡ some c)
    × (devices ≡ devices_for c.cdi_name a)
    × (is_nil c.cdi_name ≡ false)
    × (is_nil c.enrollment_token_id ≡ false)
    × ((acc.live w ≡ before) ⊎ (acc.live w ≡ c.enrollment_token_id ∷ before))
Accounted acc a before (err e, w) = acc.live w ≡ before

module _ {W : Type 0} {clock : W → ℕ × W} {s : Stores W} (acc : Accounts clock s)
    (revokes : (id : Str) (w : W) → (s.tokens.revoke id w).0 ≡ none) where
  live-revoke_token :
      (id : Str) (w : W)
      → is_blank id ≡ false
      → acc.live (revoke_token s id w) ≡ without id (acc.live w)
  unfolding revoke_token
  live-revoke_token id w shown = acc.revoke_ok id w shown (revokes id w)

  live-remove_guest : (g : GuestArtifacts) (w : W) → acc.live (remove_guest s g w) ≡ acc.live w
  unfolding remove_guest
  live-remove_guest g w = acc.live-remove_guest g w

  live-remove_cdi : (name : Str) (w : W) → acc.live (remove_cdi s name w) ≡ acc.live w
  unfolding remove_cdi
  live-remove_cdi name w = acc.live-remove_device name w

  record_client-Settles :
      (a : Allocation) (id : Str) (g : GuestArtifacts) (name : Str) (w : W)
      → is_nil name ≡ false
      → is_blank id ≡ false
      → Settles acc a id
          (without id (acc.live w))
          (acc.live w)
          (record_client clock s a id g name w)
  unfolding record_client thunder_client_from_allocation
  record_client-Settles a id g name w named shown =
      let w₁ = (clock w).1 in
      let client = thunder_client_from_allocation a (clock w).0 name id g in
      let w₂ = (s.clients.upsert client w₁).1 in
      let w₃ = remove_cdi s name w₂ in
      let same = acc.live-upsert client w₁ ∙ acc.live-clock w in
      Option-branch (Settles acc a id (without id (acc.live w)) (acc.live w)) _ _ _
        (λ done.
          let (c, recorded, token, device) = acc.upsert_ok client w₁ done in
          let device' : c.cdi_name ≡ name = device in
          (same, c, recorded, token, rw device' named, rw device'))
        (λ fault failed.
          live-revoke_token id (remove_guest s g w₃) shown
          ∙ ap (without id) (live-remove_guest g w₃ ∙ live-remove_cdi name w₂ ∙ same))

  create_device-Settles :
      (a : Allocation) (id token : Str) (g : GuestArtifacts) (w : W)
      → is_blank id ≡ false
      → Settles acc a id
          (without id (acc.live w))
          (acc.live w)
          (create_device clock s a id token g w)
  unfolding create_device
  create_device-Settles a id token g w shown =
      let w₁ = (s.cdi.create a token w).1 in
      let same = acc.live-create_device a token w in
      Outcome-branch (Settles acc a id (without id (acc.live w)) (acc.live w))
        (s.cdi.create a token w).0 _ _
        (λ name created.
          rw same at
            (record_client-Settles a id g name w₁ (acc.create_named a token w name created) shown))
        (λ fault failed.
          live-revoke_token id (remove_guest s g w₁) shown
          ∙ ap (without id) (live-remove_guest g w₁ ∙ same))

  create_guest-Settles :
      (a : Allocation) (id token : Str) (w : W)
      → is_blank id ≡ false
      → Settles acc a id (without id (acc.live w)) (acc.live w) (create_guest clock s a id token w)
  unfolding create_guest
  create_guest-Settles a id token w shown =
      let command = cdi_install_command s.cdi in
      let w₁ = (s.guest.create a token command w).1 in
      let same = acc.live-create_guest a token command w in
      Outcome-branch (Settles acc a id (without id (acc.live w)) (acc.live w))
        (s.guest.create a token command w).0 _ _
        (λ g created. rw same at (create_device-Settles a id token g w₁ shown))
        (λ fault failed. live-revoke_token id w₁ shown ∙ ap (without id) same)

  Settles-Prepared :
      (a : Allocation) (id : Str) (before : List Str)
      (r : Outcome DriverError (List PreparedDevice) × W)
      → without id before ≡ before
      → is_blank id ≡ false
      → is_nil id ≡ false
      → Settles acc a id before (id ∷ before) r
      → Prepared acc a before r
  Settles-Prepared a id before (ok devices, w) fresh shown named
        (same, c, recorded, token, device, shape) =
      (c, recorded, shape, device, rw token named, rw token same, rw token fresh, rw token shown)
  Settles-Prepared a id before (err e, w) fresh shown named same = same

  Prepared-Accounted :
      (a : Allocation) (before : List Str) (r : Outcome DriverError (List PreparedDevice) × W)
      → Prepared acc a before r
      → Accounted acc a before r
  Prepared-Accounted a before (ok devices, w)
        (c, recorded, shape, device, named, new, fresh, shown) =
      (c, recorded, shape, device, named, inr new)
  Prepared-Accounted a before (err e, w) same = same

  pub without-cons : (id : Str) (tokens : List Str) → without id (id ∷ tokens) ≡ without id tokens
  unfolding without
  without-cons id tokens = ground (arith, str_eq_iff id id)

  pub prepare_new-Prepared :
      (a : Allocation) (w : W) → Prepared acc a (acc.live w) (prepare_new clock s a w)
  unfolding prepare_new
  prepare_new-Prepared a w =
      let w₁ = (s.tokens.mint a w).1 in
      Outcome-branch (Prepared acc a (acc.live w)) (s.tokens.mint a w).0 _ _
        (λ pair minted.
          let (id, token) = pair in
          let (new, fresh, shown, named) = acc.mint_ok a w id token minted in
          Settles-Prepared a id (acc.live w) _ fresh shown named (
            rw (ap (without id) new ∙ without-cons id (acc.live w) ∙ fresh, new) at
              (create_guest-Settles a id token w₁ shown)))
        (λ fault failed. acc.mint_err a w fault failed)

  -- Where the stores keep the Accounts laws and no revocation of a token fails, preparing a claim
  -- leaks no enrollment token: when it fails, the tokens that are live are those of before, whichever
  -- step failed; when it succeeds, the devices are on the CDI device that the
  -- claim's ThunderClient records, and at most one token is new, the recorded one.
  pub prepare_allocation-Accounted :
      (a : Allocation) (w : W)
      → Accounted acc a (acc.live w) (prepare_allocation clock s a.claim_uid a w)
  unfolding prepare_allocation
  prepare_allocation-Accounted a w =
      let found = (s.clients.get a.claim_uid w).0 in
      let w₁ = (s.clients.get a.claim_uid w).1 in
      let same = acc.live-get a.claim_uid w in
      Existing-branch (Accounted acc a (acc.live w)) (classify found) _ _ _
        (λ name ready.
          let (c, read, device, named, token) = classify_prepared found name ready in
          (
            c,
            acc.recorded-get a.claim_uid a.claim_uid w ∙ acc.get_ok a.claim_uid w c read,
            rw device,
            named,
            token,
            inl same,
          ))
        (λ fault. same)
        (Prepared-Accounted a (acc.live w) _ (rw same at (prepare_new-Prepared a w₁)))

  pub prepare_allocation_new :
      (a : Allocation) (w : W)
      → (s.clients.get a.claim_uid w).0 ≡ err not_found
      → Prepared acc a (acc.live w) (prepare_allocation clock s a.claim_uid a w)
  unfolding prepare_allocation classify
  prepare_allocation_new a w lost =
      let same = acc.live-get a.claim_uid w in
      rw (lost, prepare_allocation)
        (rw same at (prepare_new-Prepared a (s.clients.get a.claim_uid w).1))
