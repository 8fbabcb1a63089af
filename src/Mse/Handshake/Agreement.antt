-- ===== src/Mse/Handshake/Agreement.antt =====
-- Two sides of src/aiobt/mse.py that shake hands with each other.
use aiobt.Mse.Handshake.Parts.{
  Reads, agreed, first_key, found_in, length-dh_public, length-xor_bytes, padded-AreBytes,
  stream_of-Reads,
}
use aiobt.Mse.Rc4.Laws.{process-append, IsRc4}
use aiobt.Python.Struct.{u16_bytes, u32_bytes, AreBytes, u32_limit}
use aiobt.Mse.Rc4.{Rc4}
use aiobt.Mse.Handshake.{
  Session, writing, initiate, receive, receiver_response, read_selection, read_offer, stream_of,
  outcome, Reading, MseHandshakeResult, vc, obfuscated, req1_of, matching,
}
use aiobt.Mse.Handshake.Readings.{
  cipher_of, later_of, head_bytes, read_selection_lem, IsSelection, plain_of,
}
use aiobt.Mse.Handshake.Offers.{padded, read_offer_lem}
use aiobt.Mse.Handshake.Runs.{
  crypto_provide-lt, initiator_request_lem, receiver_response_lem, initiate-run, receive-run,
  initiate-starts, receive-starts,
}
use aiobt.Mse.Keys.{dh_public, dh_secret, derive_keys}
use aiobt.Mse.Keys.Agreement.{derive_keys-shared, dh_secret-dh_public}
use aiobt.Mse.Negotiation.{
  is_disabled, crypto_rc4, EncryptionPolicy, crypto_provide, crypto_select, accept_selected,
  AreCompatible,
}
use aiobt.Mse.Wire.{find, take_exactly}
use aiobt.Python.Bytes.{Bytes}
use aiobt.Python.Result.{>>=-ok, ok-injective, ◌>>=◌, ok}
use aiobt.Prelude.{
  ◌||◌, not, subst, none, ◌≤◌, ◌<◌, joined, append_assoc, ◌==◌, length, ◌++◌, List, ℕ, refl, arith,
  ◌≡◌, ◌∙◌, sym, ap, true, false, some,
}

-- A padding is of at most 512 bytes, and the mark behind it is not found in it before.
abbrev pub IsPadding : Bytes → Bytes → Type 0
IsPadding mark pad = (length pad ≤ 512) × (find mark (pad ++ mark) ≡ some (length pad))

module _ (sha1 : Bytes → Bytes) (info_hash : Bytes) (hashes : List Bytes) (a b : EncryptionPolicy)
    (xa xb : ℕ) (pad_a pad_b pad_c pad_d later_a later_b : Bytes) (ra rb : List Bytes)
    (enc dec : Rc4) where
  abbrev secret : Bytes
  secret = dh_secret (dh_public xb) xa

  abbrev side_a : Session MseHandshakeResult
  side_a = initiate sha1 a info_hash xa pad_a pad_c ra

  abbrev side_b : Session MseHandshakeResult
  side_b = receive sha1 b hashes xb pad_b pad_d rb

  abbrev request : Bytes
  request = head_bytes (crypto_provide a) (length pad_c) ++ padded pad_c

  abbrev request_bytes : Bytes
  request_bytes = req1_of sha1 secret ++ (obfuscated sha1 secret info_hash ++ cipher_of enc request)

  -- What the two sides are given.
  pub record AreConnected : Type 0 where
    pub keys : derive_keys sha1 secret info_hash true ≡ ok (enc, dec)
    pub digests : (m : Bytes) → length (sha1 m) ≡ 20
    pub known : matching sha1 secret (obfuscated sha1 secret info_hash) hashes ≡ some info_hash
    pub padding_a : IsPadding (req1_of sha1 secret) pad_a
    pub padding_b : IsPadding (cipher_of dec vc) pad_b
    pub padding_c : (length pad_c ≤ 512) × AreBytes pad_c
    pub padding_d : (length pad_d ≤ 512) × AreBytes pad_d

  -- The initiator, once it has the receiver's public value.
  pub initiator_side :
      (ra' : List Bytes)
      → AreConnected
      → take_exactly 96 ra ≡ ok (dh_public xb, ra')
      → side_a ≡ (
        (dh_public xa ++ pad_a) ++ request_bytes,
        read_selection dec ra' >>= (λ r. accept_selected a r.method >>= (λ e. ok (record {
          stream = stream_of e (later_of enc request) r;
          is_encrypted = e;
          info_hash = none;
        }))),
      )
  initiator_side ra' c t =
      initiate-run sha1 a info_hash xa pad_a pad_c ra ra' (dh_public xb) request_bytes
        (later_of enc request) dec t
        (initiator_request_lem sha1 a info_hash secret pad_c c.keys (omega (arith, c.padding_c.0)))

  keys_of :
      AreConnected
      → (derive_keys sha1 secret info_hash false ≡ ok (dec, enc)) × IsRc4 enc × IsRc4 dec
  keys_of c =
      let (x, y, k, k', i, i') =
        derive_keys-shared sha1 info_hash xa xb (λ t. omega (arith, c.digests t)) in
      let same_keys = ok-injective (sym k ∙ c.keys) in
      subst (λ q. (derive_keys sha1 secret info_hash false ≡ ok (q.1, q.0)) × IsRc4 q.0 × IsRc4 q.1)
        same_keys
        (ap (λ s. derive_keys sha1 s info_hash false) (sym (dh_secret-dh_public xa xb)) ∙ k', i, i')

  -- The receiver, once the initiator's request is there.
  pub receiver_side :
      (rb' : List Bytes) (method : ℕ)
      → AreConnected
      → crypto_select b (crypto_provide a) ≡ ok method
      → method < u32_limit
      → take_exactly 96 rb ≡ ok (dh_public xa, rb')
      → joined rb' ≡ pad_a ++ (request_bytes ++ later_a)
      → let response = head_bytes method (length pad_d) ++ pad_d in
        (r : Reading) × (side_b
          ≡ writing
              (dh_public xb ++ pad_b)
              (outcome info_hash r (method, cipher_of dec response, later_of dec response)))
        × (plain_of r ≡ cipher_of (later_of enc request) later_a)
  receiver_side rb' method c e m t content =
      let (k, i, i') = keys_of c in
      let req1 = req1_of sha1 secret in
      let mark = obfuscated sha1 secret info_hash in
      let size : length mark ≡ 20 =
        length-xor_bytes _ _ (c.digests _ ∙ sym (c.digests _)) ∙ c.digests _ in
      let split : joined rb' ≡ pad_a ++ (req1 ++ (mark ++ (cipher_of enc request ++ later_a))) =
        content
        ∙ ap (λ x. pad_a ++ x)
            (append_assoc req1 (mark ++ cipher_of enc request) later_a
              ∙ ap (λ x. req1 ++ x) (append_assoc mark (cipher_of enc request) later_a)) in
      let found = found_in req1 pad_a _ (joined rb') c.padding_a.1 split in
      let (r, run, is_method, plain) =
        read_offer_lem sha1 secret hashes info_hash dec enc rb' pad_a mark pad_c later_a
          (crypto_provide a) i (padded-AreBytes pad_c c.padding_c.1) (crypto_provide-lt a)
          (omega (arith, c.padding_c.0)) c.padding_a.0 (c.digests _) size found c.known k split in
      (
        r,
        receive-run sha1 b hashes xb pad_b pad_d rb rb' (dh_public xa) _ info_hash dec _ r method t
            (ap (λ s. read_offer sha1 s hashes rb') (dh_secret-dh_public xa xb) ∙ run)
            (ap (λ n. receiver_response b n dec pad_d) is_method
              ∙ receiver_response_lem b (crypto_provide a) dec pad_d e m
                  (omega (arith, c.padding_d.0))),
        plain,
      )

  found_response :
      (ra' : List Bytes) (method : ℕ)
      → AreConnected
      → joined ra' ≡ pad_b ++ (cipher_of dec (head_bytes method (length pad_d) ++ pad_d) ++ later_b)
      → find (cipher_of dec vc) (joined ra') ≡ some (length pad_b)
  found_response ra' method c content =
      let tail = u32_bytes method ++ (u16_bytes (length pad_d) ++ pad_d) in
      found_in (cipher_of dec vc) pad_b (cipher_of (later_of dec vc) tail ++ later_b) (joined ra')
        c.padding_b.1
        (content
          ∙ ap (λ x. pad_b ++ (x.1 ++ later_b)) (process-append dec vc tail)
          ∙ ap (λ x. pad_b ++ x)
              (append_assoc (cipher_of dec vc) (cipher_of (later_of dec vc) tail) later_b))

  initiator_result :
      (ra' : List Bytes) (method : ℕ)
      → AreConnected
      → accept_selected a method ≡ ok (method == crypto_rc4)
      → take_exactly 96 ra ≡ ok (dh_public xb, ra')
      → IsSelection
          (later_of dec (head_bytes method (length pad_d) ++ pad_d))
          method
          later_b
          (read_selection dec ra')
      → (r : Reading) × (side_a.1
          ≡ ok (record {
            stream = stream_of (method == crypto_rc4) (later_of enc request) r;
            is_encrypted = method == crypto_rc4;
            info_hash = none;
          }))
        × (plain_of r
            ≡ cipher_of (later_of dec (head_bytes method (length pad_d) ++ pad_d)) later_b)
  initiator_result ra' method c e t (r, run, is_method, plain) = (
    r,
    ap (λ p. p.1) (initiator_side ra' c t)
        ∙ >>=-ok _ _ run (>>=-ok _ _ (ap (accept_selected a) is_method ∙ e) refl),
    plain,
  )

  -- Two sides with a method in common that read what the other one writes, however it arrives, both
  -- finish, where they know the same info hash, the digests have 20 bytes, the paddings are of at
  -- most 512 bytes, and no mark is found before its place. They agree on RC4 unless one of them
  -- disables it, the receiver names the info hash, and with RC4 each one's stream deciphers what
  -- the other one's stream enciphers.
  pub handshake_lem :
      AreConnected
      → AreCompatible a b
      → joined rb ≡ side_a.0 ++ later_a
      → joined ra ≡ side_b.0 ++ later_b
      → (x : MseHandshakeResult) × (y : MseHandshakeResult) × (side_a.1 ≡ ok x)
        × (side_b.1 ≡ ok y)
        × (x.is_encrypted ≡ not (is_disabled a || is_disabled b))
        × (y.is_encrypted ≡ x.is_encrypted)
        × (y.info_hash ≡ some info_hash)
        × Reads x.stream y.stream later_b
        × Reads y.stream x.stream later_a
  handshake_lem c h from_a from_b =
      let (method, e, e', m, which) = agreed a b h in
      let ya = dh_public xa in
      let yb = dh_public xb in
      let response = head_bytes method (length pad_d) ++ pad_d in
      let (k, i, i') = keys_of c in
      let (w, starts) = initiate-starts sha1 a info_hash xa pad_a pad_c ra in
      let (rb', t, rest) =
        first_key ya pad_a w later_a rb (length-dh_public xa)
          (from_a ∙ ap (λ v. v ++ later_a) starts) in
      let (w', starts') = receive-starts sha1 b hashes xb pad_b pad_d rb rb' ya t in
      let (ra', t', rest') =
        first_key yb pad_b w' later_b ra (length-dh_public xb)
          (from_b ∙ ap (λ v. v ++ later_b) starts') in
      let (rb2, t2, content) =
        first_key ya pad_a request_bytes later_a rb (length-dh_public xa)
          (from_a ∙ ap (λ p. p.0 ++ later_a) (initiator_side ra' c t')) in
      let (r, finished, plain) = receiver_side rb2 method c e m t2 content in
      let (ra2, t3, content') =
        first_key yb pad_b (cipher_of dec response) later_b ra (length-dh_public xb)
          (from_b ∙ ap (λ p. p.0 ++ later_b) finished) in
      let (r', finished', plain') = initiator_result ra2 method c e' t3 (
        read_selection_lem dec ra2 pad_b pad_d later_b method i' c.padding_d.1 m
          (omega (arith, c.padding_d.0)) c.padding_b.0 (found_response ra2 method c content')
          content') in
      (
        _,
        _,
        finished',
        ap (λ p. p.1) finished,
        which,
        refl,
        refl,
        stream_of-Reads (method == crypto_rc4) (later_of enc request) (later_of dec response) r' r
            later_b plain',
        stream_of-Reads (method == crypto_rc4) (later_of dec response) (later_of enc request) r r'
            later_a plain,
      )
