-- ===== src/Daemon/Driver/Accounts.antt =====
-- prepareOne and unprepareOne against the enrollment tokens that Thunder holds: what the stores are
-- asked to do with them.
use thunder_device_plugin.Base.{
  ℕ, ◌≡◌, false, not, Option, none, some, List, ◌∷◌, Str, ok, err, Fault, ◌==◌, text_eq, is_nil,
  is_blank, keep,
}
use thunder_device_plugin.Daemon.Driver.Types.{Allocation, ThunderClient, GuestArtifacts, Stores}

-- The tokens other than `id`.
unfoldable pub without : Str → List Str → List Str
without id tokens = keep (λ token. not (token == id)) tokens

-- The stores as the driver relies on them: the tokens that are live at Thunder, and the recorded
-- client of each claim. Only the token issuer moves tokens, and only the client store moves records.
pub record Accounts {W : Type 0} (clock : W → ℕ × W) (s : Stores W) : Type 0 where
  pub live : W → List Str
  pub recorded : Str → W → Option ThunderClient
  -- A token that is minted is new, has an ID that is not blank, and is live.
  pub mint_ok :
      (a : Allocation) (w : W) (id token : Str)
      → (s.tokens.mint a w).0 ≡ ok (id, token)
      → (live (s.tokens.mint a w).1 ≡ id ∷ live w)
        × (without id (live w) ≡ live w)
        × (is_blank id ≡ false)
        × (is_nil id ≡ false)
  pub mint_err :
      (a : Allocation) (w : W) (fault : Fault)
      → (s.tokens.mint a w).0 ≡ err fault
      → live (s.tokens.mint a w).1 ≡ live w
  -- A token that is revoked, or that Thunder no longer knows, is not live.
  pub revoke_ok :
      (id : Str) (w : W)
      → is_blank id ≡ false
      → (s.tokens.revoke id w).0 ≡ none
      → live (s.tokens.revoke id w).1 ≡ without id (live w)
  pub live-revoke_client : (id : Str) (w : W) → live (s.tokens.revoke_client id w).1 ≡ live w
  pub live-get : (uid : Str) (w : W) → live (s.clients.get uid w).1 ≡ live w
  pub live-upsert : (c : ThunderClient) (w : W) → live (s.clients.upsert c w).1 ≡ live w
  pub live-delete : (uid : Str) (w : W) → live (s.clients.delete uid w).1 ≡ live w
  pub live-create_device :
      (a : Allocation) (token : Str) (w : W) → live (s.cdi.create a token w).1 ≡ live w
  pub live-remove_device : (name : Str) (w : W) → live (s.cdi.remove name w).1 ≡ live w
  pub live-staged : (name : Str) (w : W) → live (s.cdi.staged_client_id name w).1 ≡ live w
  pub live-create_guest :
      (a : Allocation) (token command : Str) (w : W)
      → live (s.guest.create a token command w).1 ≡ live w
  pub live-remove_guest : (g : GuestArtifacts) (w : W) → live (s.guest.remove g w).1 ≡ live w
  pub live-clock : (w : W) → live (clock w).1 ≡ live w
  -- A read gives what is recorded, and changes nothing.
  pub get_ok :
      (uid : Str) (w : W) (c : ThunderClient)
      → (s.clients.get uid w).0 ≡ ok c
      → recorded uid w ≡ some c
  pub recorded-get :
      (uid uid' : Str) (w : W) → recorded uid' (s.clients.get uid w).1 ≡ recorded uid' w
  -- A client that is written is recorded with its token, CDI device and guest artifacts.
  pub upsert_ok :
      (c : ThunderClient) (w : W)
      → (s.clients.upsert c w).0 ≡ none
      → (c' : ThunderClient) × (recorded c.claim_uid (s.clients.upsert c w).1 ≡ some c')
        × (c'.enrollment_token_id ≡ c.enrollment_token_id)
        × (c'.cdi_name ≡ c.cdi_name)
  pub create_named :
      (a : Allocation) (token : Str) (w : W) (name : Str)
      → (s.cdi.create a token w).0 ≡ ok name
      → is_nil name ≡ false
