-- ===== src/Pairing/Server/Settles.antt =====
-- What comes out of a pairing (internal/pairing/network.go, `pair`).
use opl_core.Prelude.{
  ℕ, ◌≡◌, inl, inr, Bool, true, false, not, ◌&&◌, ◌||◌, [], ◌==◌, nat_eq, bytes_eq, Bytes, length,
  Option, some, none, Result, ok, err, refl, ap, ◌∙◌, arith, Bool-cases,
}
use opl_core.Pairing.Messages.{
  Error, ServerChallenge, ClientRequest, PairResult, new_server_challenge,
}
use opl_core.Pairing.Auth.{verify_client_request, verify_pair_ack}
use opl_core.Pairing.Messages.Frames.{read_frame}
use opl_core.Pairing.Messages.{parse_client_request}
use opl_core.Pairing.Server.{
  Assignment, ServerConfig, Connection, PairRun, failed, acknowledged, auth_key_of, settle,
  answer_member, assigned, admit_request, read_request, challenge_client, pair, asked,
}

module _ {S : Type 0} (config : ServerConfig S) where
  -- A request that may be given an address: the connection's first frame carries it, it is
  -- authenticated against the challenge of this connection, by the room key or by the key of a
  -- member, its id is not blocked, and the room takes members or knows this one. `rest` is the stream
  -- behind the request.
  pub record IsAdmitted (connection : Connection) (request : ClientRequest) (rest room_key : Bytes)
      (auth_key : Bytes) (existing : Bool) (s : S) : Type 0 where
    pub challenge : ServerChallenge
    pub payload : Bytes
    pub made : new_server_challenge config.host_public_key connection.random ≡ ok challenge
    pub read : read_frame connection.stream ≡ ok (2, payload, rest)
    pub parsed : parse_client_request payload ≡ ok request
    pub key : auth_key_of config challenge request room_key s ≡ (auth_key, existing)
    pub verified : verify_client_request challenge request auth_key ≡ true
    pub unblocked :
        (not (request.uid == []) && asked config config.blocked_uid s request.uid) ≡ false
    pub allowed :
        (not (config.join_enabled s)
          && not (asked config config.known_member s request.client_public_key))
        ≡ false

  -- How a run may leave the room: untouched, with an assignment refused, or with one that was made
  -- and then either given up or, on the right acknowledgement, kept.
  pub data Settled (connection : Connection) (room_key : Bytes) (s : S) : PairRun S → Type 0 where
    untouched :
        {answer : Option Bytes}
        → Settled connection room_key s (record { answer = answer; state = s; member = none })
    refusal :
        {answer : Option Bytes} {s' : S} {e : Error} (request : ClientRequest)
        (rest auth_key : Bytes) (existing : Bool)
        → IsAdmitted connection request rest room_key auth_key existing s
        → config.assign request.client_public_key request.name room_key existing s ≡ (s', err e)
        → Settled connection room_key s (record { answer = answer; state = s'; member = none })
    given_up :
        {answer : Option Bytes} {s' : S} {a : Assignment} (request : ClientRequest)
        (rest auth_key : Bytes) (existing : Bool)
        → IsAdmitted connection request rest room_key auth_key existing s
        → config.assign request.client_public_key request.name room_key existing s ≡ (s', ok a)
        → Settled connection room_key s (record {
          answer = answer;
          state = failed config request.client_public_key a s';
          member = none;
        })
    joined :
        {answer : Option Bytes} {s' : S} {a : Assignment} (request : ClientRequest)
        (rest auth_key ack behind : Bytes) (existing : Bool)
        → IsAdmitted connection request rest room_key auth_key existing s
        → config.assign request.client_public_key request.name room_key existing s ≡ (s', ok a)
        → read_frame rest ≡ ok (4, ack, behind)
        → length ack ≡ 32
        → verify_pair_ack auth_key a.revision ack ≡ true
        → Settled connection room_key s (record {
          answer = answer;
          state = acknowledged config request.client_public_key a s';
          member = some (request, a);
        })

  module _ (connection : Connection) (request : ClientRequest) (rest room_key auth_key : Bytes)
      (existing : Bool) (s : S)
      (admitted : IsAdmitted connection request rest room_key auth_key existing s) where
    settle-Settled :
        (a : Assignment) (answer : Bytes) (s' : S) (frame : Result Error (ℕ × Bytes × Bytes))
        → config.assign request.client_public_key request.name room_key existing s ≡ (s', ok a)
        → read_frame rest ≡ frame
        → Settled connection room_key s (settle config auth_key request a answer s' frame)
    unfolding settle
    settle-Settled a answer s' (err e) h g = given_up request rest auth_key existing admitted h
    settle-Settled a answer s' (ok (kind, ack, behind)) h g =
        elim (Bool-cases (not (kind == 4) || not (length ack == 32))) [
          | inl bad ↦ rw bad (given_up request rest auth_key existing admitted h)
          | inr fine ↦ elim (Bool-cases (verify_pair_ack auth_key a.revision ack)) [
            | inl good ↦
                rw (fine, good)
                  (joined request rest auth_key ack behind existing admitted h
                    (g ∙ ap (λ k. ok (k, ack, behind)) (ground (arith, fine)))
                    (ground (arith, fine)) good)
            | inr bad ↦ rw (fine, bad) (given_up request rest auth_key existing admitted h)
          ]
        ]

    answer_member-Settled :
        (a : Assignment) (s' : S) (result : Result Error PairResult)
        → config.assign request.client_public_key request.name room_key existing s ≡ (s', ok a)
        → Settled connection room_key s
            (answer_member config connection request auth_key a rest s' result)
    unfolding answer_member
    answer_member-Settled a s' (err e) h = given_up request rest auth_key existing admitted h
    answer_member-Settled a s' (ok result) h =
        elim (Bool-cases (not connection.result_written || not connection.configure_deadline_set)) [
          | inl bad ↦ rw bad (given_up request rest auth_key existing admitted h)
          | inr fine ↦ rw fine (settle-Settled a _ s' (read_frame rest) h refl)
        ]

    assigned-Settled :
        (challenge : ServerChallenge) (r : S × Result Error Assignment)
        → config.assign request.client_public_key request.name room_key existing s ≡ r
        → Settled connection room_key s
            (assigned config connection challenge request auth_key rest r)
    unfolding assigned
    assigned-Settled challenge (s', err e) h = refusal request rest auth_key existing admitted h
    assigned-Settled challenge (s', ok a) h = answer_member-Settled a s' _ h

  admit_request-Settled :
      (connection : Connection) (challenge : ServerChallenge) (payload room_key stream : Bytes)
      (s : S) (r : Result Error ClientRequest)
      → new_server_challenge config.host_public_key connection.random ≡ ok challenge
      → read_frame connection.stream ≡ ok (2, payload, stream)
      → parse_client_request payload ≡ r
      → Settled connection room_key s
          (admit_request config connection challenge room_key stream s r)
  unfolding admit_request
  admit_request-Settled connection challenge payload room_key stream s (err e) m g p = untouched
  admit_request-Settled connection challenge payload room_key stream s (ok request) m g p =
      let auth = auth_key_of config challenge request room_key s in
      let blocked = not (request.uid == []) && asked config config.blocked_uid s request.uid in
      let paused =
        not (config.join_enabled s)
        && not (asked config config.known_member s request.client_public_key) in
      elim (Bool-cases (verify_client_request challenge request auth.0)) [
        | inr bad ↦ rw bad untouched
        | inl good ↦ elim (Bool-cases blocked) [
          | inl hit ↦ rw (good, hit) untouched
          | inr unblocked ↦ elim (Bool-cases paused) [
            | inl shut ↦ rw (good, unblocked, shut) untouched
            | inr allowed ↦
                rw (good, unblocked, allowed)
                  (assigned-Settled connection request stream room_key auth.0 auth.1 s
                    (record {
                      challenge = challenge;
                      payload = payload;
                      made = m;
                      read = g;
                      parsed = p;
                      key = refl;
                      verified = good;
                      unblocked = unblocked;
                      allowed = allowed;
                    })
                    challenge _ refl)
          ]
        ]
      ]

  read_request-Settled :
      (connection : Connection) (challenge : ServerChallenge) (room_key : Bytes) (s : S)
      (r : Result Error (ℕ × Bytes × Bytes))
      → new_server_challenge config.host_public_key connection.random ≡ ok challenge
      → read_frame connection.stream ≡ r
      → Settled connection room_key s (read_request config connection challenge room_key s r)
  unfolding read_request
  read_request-Settled connection challenge room_key s (err e) m g = untouched
  read_request-Settled connection challenge room_key s (ok (kind, payload, rest)) m g =
      elim (Bool-cases (not (kind == 2))) [
        | inl bad ↦ rw bad untouched
        | inr fine ↦ rw fine (
            admit_request-Settled connection challenge payload room_key rest s
              (parse_client_request payload) m
              (g ∙ ap (λ k. ok (k, payload, rest)) (ground (arith, fine))) refl)
      ]

  challenge_client-Settled :
      (connection : Connection) (room_key : Bytes) (s : S) (r : Result Error ServerChallenge)
      → new_server_challenge config.host_public_key connection.random ≡ r
      → Settled connection room_key s (challenge_client config connection room_key s r)
  unfolding challenge_client
  challenge_client-Settled connection room_key s (err e) m = untouched
  challenge_client-Settled connection room_key s (ok challenge) m =
      elim (Bool-cases (not connection.challenge_written || not connection.idle_deadline_set)) [
        | inl bad ↦ rw bad untouched
        | inr fine ↦ rw fine (
            read_request-Settled connection challenge room_key s (read_frame connection.stream) m
              refl)
      ]

  -- Whatever a connection brings, pairing leaves the room in one of four ways: untouched; with an
  -- assignment refused; with one made and given up by `failed`; or with a member. In the last three
  -- the request is the one in the first frame of the connection's stream, it was authenticated
  -- against the challenge made for this connection, it was not blocked and was allowed in; in the
  -- last the next frame of the stream is an acknowledgement, of 32 bytes, that is right for the
  -- revision assigned.
  pub pair-Settled :
      (connection : Connection) (room_key : Bytes) (s : S)
      → Settled connection room_key s (pair config connection room_key s)
  unfolding pair
  pair-Settled connection room_key s = challenge_client-Settled connection room_key s _ refl
