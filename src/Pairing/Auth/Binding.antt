-- ===== src/Pairing/Auth/Binding.antt =====
-- What the codes of the handshake are bound to (internal/pairing/pairing.go).
use opl_core.Prelude.{◌≡◌, ◌<◌, length, arith, refl, append_inj, cons_inj}
use opl_core.Pairing.Messages.{ServerChallenge, ClientRequest}
use opl_core.Pairing.Messages.RoundTrip.{IsChallenge, IsRequest}
use opl_core.Pairing.Auth.{request_message, request_domain}

same_challenge :
    (c d : ServerChallenge)
    → c.version ≡ d.version
    → c.server_nonce ≡ d.server_nonce
    → c.host_public_key ≡ d.host_public_key
    → c ≡ d
same_challenge c d p q r = cc

-- What a member authenticates leaves nothing open: two requests, each under its challenge, with ids
-- and names of less than 256 bytes, that are hashed from the same bytes agree in the challenge
-- (version, nonce and host key) and in the nonce, key, id and name of the request.
pub request_message_inj :
    (c d : ServerChallenge) (v w : ClientRequest)
    → IsChallenge c
    → IsChallenge d
    → IsRequest v
    → IsRequest w
    → length v.uid < 256
    → length w.uid < 256
    → request_message c v ≡ request_message d w
    → (c ≡ d)
      × (v.client_nonce ≡ w.client_nonce)
      × (v.client_public_key ≡ w.client_public_key)
      × (v.uid ≡ w.uid)
      × (v.name ≡ w.name)
unfolding request_message
request_message_inj c d v w ci di vi wi p q h =
    let (dom, h1) = append_inj request_domain request_domain _ _ refl h in
    let (version, h2) = cons_inj h1 in
    let (nonce, h3) =
      append_inj c.server_nonce d.server_nonce _ _ (omega (arith, ci.nonce, di.nonce)) h2 in
    let (cn, h4) =
      append_inj v.client_nonce w.client_nonce _ _ (omega (arith, vi.nonce, wi.nonce)) h3 in
    let (hk, h5) =
      append_inj c.host_public_key d.host_public_key _ _ (omega (arith, ci.key, di.key)) h4 in
    let (ck, h6) =
      append_inj v.client_public_key w.client_public_key _ _ (omega (arith, vi.key, wi.key)) h5 in
    let (n, h7) = cons_inj h6 in
    let (uid, h8) = append_inj v.uid w.uid _ _ (omega arith) h7 in
    (same_challenge c d version nonce hk, cn, ck, uid, (cons_inj h8).1)
