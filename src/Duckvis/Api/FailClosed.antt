-- ===== src/Duckvis/Api/FailClosed.antt =====
-- duckvis/api.rs: an authorization is granted on the word of the API only.
use swanlake.Prelude.{
  ℕ, ◌≡◌, ◌≤◌, ◌<◌, refl, Bool, true, false, Option, none, some, arith, Bool-cases, inl, inr, ap,
  ◌∙◌,
}
use swanlake.Text.{Bytes, codes}
use swanlake.Duckvis.{unavailable, Outcome, ok, err, FailsBy, Ends, Ends-cases}
use swanlake.Duckvis.Sa.{
  SaToken, Account, TokenRequest, TokenReply, MintTimes, failed, replied, get_token, force_refresh,
  mint, token_request, read_token_reply, stored, is_fresh,
}
use swanlake.Duckvis.Api.{
  ResolvedAttachment, CheckRequest, CheckResponse, ResolveRequest, ResolveResponse, Posted, Reply,
  CallTimes, read_reply, is_unauthorized, sent, resent, exchange, post_json_with_retry, allowed,
  endpoint_url, project_check_request, check_project, resolved, with_fields, resolve_attachment,
}

-- The API has replied to this request with this body, at some instant and for some token.
pub record Told {B R : Type 0} (api : ℕ → Posted B → Reply R) (url : Bytes) (body : B) (r : R)
    : Type 0 where
  pub at : ℕ
  pub token : Bytes
  pub status : ℕ
  pub reply :
      api at (record { url = url; body = body; token = token }) ≡ Reply.replied status (some r)
  pub success : (200 ≤ status) × (status < 300)

reply-FailsBy : (at : ℕ) (reply : TokenReply) → FailsBy unavailable (read_token_reply at reply)
unfolding read_token_reply
reply-FailsBy at failed = refl
reply-FailsBy at (replied status none) = ground arith
reply-FailsBy at (replied status (some b)) = ground arith

module _ {B R : Type 0} (api : ℕ → Posted B → Reply R) (url : Bytes) (body : B) where
  told :
      (at : ℕ) (token : Bytes) (r : R) (reply : Reply R)
      → api at (record { url = url; body = body; token = token }) ≡ reply
      → read_reply reply ≡ ok r
      → Told api url body r
  unfolding read_reply
  told at token r Reply.failed e h = absurd (cc h)
  told at token r (Reply.replied status none) e h = absurd (ground arith)
  told at token r (Reply.replied status (some x)) e h = record {
    at = at;
    token = token;
    status = status;
    reply = e ∙ ap (λ y. Reply.replied status (some y)) (ground arith);
    success = ground arith;
  }

  module _ (account : Account) (endpoint : ℕ → TokenRequest → TokenReply) (t : CallTimes) where
    resent-Told :
        (r : R) (tok : Outcome Bytes × Option SaToken)
        → (resent account endpoint api t url body tok).0 ≡ ok r
        → Told api url body r
    resent-Told r (err e, cache) h = absurd (cc h)
    resent-Told r (ok fresh, cache) h = told t.resent_at fresh r _ refl h

    exchange-Told :
        (r : R) (tok : Outcome Bytes × Option SaToken)
        → (exchange account endpoint api t url body tok).0 ≡ ok r
        → Told api url body r
    unfolding exchange
    exchange-Told r (err e, cache) h = absurd (cc h)
    exchange-Told r (ok token, cache) h =
        elim (Bool-cases (is_unauthorized (sent account endpoint api t url body t.sent_at token))) [
          | inl u ↦ resent-Told r (force_refresh account endpoint t.second_mint cache) (rw u at h)
          | inr u ↦ told t.sent_at token r _ refl (rw u at h)
        ]

    post-Told :
        (r : R) (cache : Option SaToken)
        → (post_json_with_retry account endpoint api t url body cache).0 ≡ ok r
        → Told api url body r
    unfolding post_json_with_retry
    post-Told r cache h =
        exchange-Told r (get_token account endpoint t.fresh_at t.first_mint cache) h

    read_reply-FailsBy : (reply : Reply R) → FailsBy unavailable (read_reply reply)
    unfolding read_reply
    read_reply-FailsBy Reply.failed = refl
    read_reply-FailsBy (Reply.replied status none) = ground arith
    read_reply-FailsBy (Reply.replied status (some r)) = ground arith

    resent-FailsBy :
        (tok : Outcome Bytes × Option SaToken)
        → FailsBy unavailable tok.0
        → FailsBy unavailable (resent account endpoint api t url body tok).0
    resent-FailsBy (err e, cache) h = h
    resent-FailsBy (ok fresh, cache) h = read_reply-FailsBy _

    stored-FailsBy :
        (cache : Option SaToken) (r : Outcome SaToken)
        → FailsBy unavailable r
        → FailsBy unavailable (stored account endpoint cache r).0
    stored-FailsBy cache (ok fresh) h = tt
    stored-FailsBy cache (err e) h = h

    mint-FailsBy : (times : MintTimes) → FailsBy unavailable (mint account endpoint times)
    unfolding mint
    mint-FailsBy times =
        reply-FailsBy times.minted_at
          (endpoint times.minted_at (token_request account endpoint times.now_secs))

    exchange-FailsBy :
        (tok : Outcome Bytes × Option SaToken)
        → FailsBy unavailable tok.0
        → FailsBy unavailable (exchange account endpoint api t url body tok).0
    unfolding exchange force_refresh
    exchange-FailsBy (err e, cache) h = h
    exchange-FailsBy (ok token, cache) h =
        elim (Bool-cases (is_unauthorized (sent account endpoint api t url body t.sent_at token))) [
          | inl u ↦ rw u (
              resent-FailsBy _ (
                stored-FailsBy none (mint account endpoint t.second_mint)
                  (mint-FailsBy t.second_mint)))
          | inr u ↦ rw u (read_reply-FailsBy (sent account endpoint api t url body t.sent_at token))
        ]

    get_token-FailsBy :
        (cache : Option SaToken)
        → FailsBy unavailable (get_token account endpoint t.fresh_at t.first_mint cache).0
    unfolding get_token
    get_token-FailsBy none = stored-FailsBy none _ (mint-FailsBy t.first_mint)
    get_token-FailsBy (some token) = elim (Bool-cases (is_fresh t.fresh_at token)) [
      | inl f ↦ rw f tt
      | inr f ↦ rw f (
          stored-FailsBy (some token) (mint account endpoint t.first_mint)
            (mint-FailsBy t.first_mint))
    ]

    post-FailsBy :
        (cache : Option SaToken)
        → FailsBy unavailable (post_json_with_retry account endpoint api t url body cache).0
    unfolding post_json_with_retry
    post-FailsBy cache = exchange-FailsBy _ (get_token-FailsBy cache)

module _ (account : Account) (endpoint : ℕ → TokenRequest → TokenReply) (t : CallTimes) where
  allowed-ok :
      (o : Outcome CheckResponse) (b : Bool)
      → allowed account endpoint o ≡ ok b
      → o ≡ ok (record { allow = b })
  allowed-ok (ok resp) b h = cc h
  allowed-ok (err e) b h = absurd (cc h)

  allowed-FailsBy :
      (o : Outcome CheckResponse)
      → FailsBy unavailable o
      → FailsBy unavailable (allowed account endpoint o)
  allowed-FailsBy (ok resp) h = tt
  allowed-FailsBy (err e) h = h

  -- A permission check always ends in one of two ways. Its answer, yes or no, is the `allow` of a
  -- successful reply that the API gave to exactly this question: this subject, this permission, this
  -- project. Otherwise it fails, and the error is `Unavailable`.
  pub check_project-Told :
      (api : ℕ → Posted CheckRequest → Reply CheckResponse) (subject project_id permission : Bytes)
      (cache : Option SaToken)
      → Ends unavailable
          (λ b.
            Told api
              (endpoint_url account endpoint (codes "/v1/authz/check"))
              (project_check_request account endpoint subject project_id permission)
              (record { allow = b }))
          (check_project account endpoint api t subject project_id permission cache).0
  unfolding check_project
  check_project-Told api subject project_id permission cache =
      Ends-cases unavailable _ _
        (λ b h. post-Told api _ _ account endpoint t _ cache (allowed-ok _ b h))
        (allowed-FailsBy _ (post-FailsBy api _ _ account endpoint t cache))

  -- What a resolution says of the reply: a denial, or every field of the attachment.
  abbrev pub Resolves : ResolveResponse → Option ResolvedAttachment → Type 0
  Resolves resp none = resp.allow ≡ false
  Resolves resp (some a) =
      (resp.allow ≡ true)
      × (resp.attachment_id ≡ some a.attachment_id)
      × (resp.name ≡ some a.name)
      × (resp.secret_config ≡ some a.secret_config)

  with_fields-Resolves :
      (resp : ResolveResponse) (o : Option ResolvedAttachment) (i n c : Option Bytes)
      → resp.allow ≡ true
      → resp.attachment_id ≡ i
      → resp.name ≡ n
      → resp.secret_config ≡ c
      → with_fields account endpoint resp i n c ≡ ok o
      → Resolves resp o
  with_fields-Resolves resp none (some i) (some n) (some c) ha hi hn hc h = absurd (cc h)
  with_fields-Resolves resp (some a) (some i) (some n) (some c) ha hi hn hc h = (ha, cc, cc, cc)
  with_fields-Resolves resp o none n c ha hi hn hc h = absurd (cc h)
  with_fields-Resolves resp o (some i) none c ha hi hn hc h = absurd (cc h)
  with_fields-Resolves resp o (some i) (some n) none ha hi hn hc h = absurd (cc h)

  resolved-Resolves :
      (o : Outcome ResolveResponse) (a : Option ResolvedAttachment)
      → resolved account endpoint o ≡ ok a
      → (resp : ResolveResponse) × (o ≡ ok resp) × Resolves resp a
  unfolding resolved
  resolved-Resolves (err e) a h = absurd (cc h)
  resolved-Resolves (ok resp) a h = (
    resp,
    refl,
    elim (Bool-cases resp.allow) [
      | inl y ↦ with_fields-Resolves resp a _ _ _ y refl refl refl (rw y at h)
      | inr n ↦ denied resp a n (rw n at h)
    ],
  )
    where
      denied :
          (r : ResolveResponse) (b : Option ResolvedAttachment)
          → r.allow ≡ false
          → ok none ≡ ok b
          → Resolves r b
      denied r none n e = n
      denied r (some x) n e = absurd (cc e)

  with_fields-FailsBy :
      (resp : ResolveResponse) (i n c : Option Bytes)
      → FailsBy unavailable (with_fields account endpoint resp i n c)
  with_fields-FailsBy resp (some i) (some n) (some c) = tt
  with_fields-FailsBy resp none n c = refl
  with_fields-FailsBy resp (some i) none c = refl
  with_fields-FailsBy resp (some i) (some n) none = refl

  resolved-FailsBy :
      (o : Outcome ResolveResponse)
      → FailsBy unavailable o
      → FailsBy unavailable (resolved account endpoint o)
  unfolding resolved
  resolved-FailsBy (err e) h = h
  resolved-FailsBy (ok resp) h = elim (Bool-cases resp.allow) [
    | inl y ↦ rw y (with_fields-FailsBy resp resp.attachment_id resp.name resp.secret_config)
    | inr n ↦ rw n tt
  ]

  -- A resolution always ends in one of two ways. The API gave a successful reply to exactly this
  -- question; then the attachment is denied only if the reply denies it, and an attachment that is
  -- returned has the identity, the name and the statement of a reply that allows it. Otherwise it
  -- fails, and the error is `Unavailable`.
  pub resolve_attachment-Told :
      (api : ℕ → Posted ResolveRequest → Reply ResolveResponse) (subject project_id bind_id : Bytes)
      (cache : Option SaToken)
      → Ends unavailable
          (λ a.
            (resp : ResolveResponse) × Told api
              (endpoint_url account endpoint (codes "/v1/authz/resolve-attachment"))
              (record { subject = subject; project_id = project_id; bind_id = bind_id })
              resp
            × Resolves resp a)
          (resolve_attachment account endpoint api t subject project_id bind_id cache).0
  unfolding resolve_attachment
  resolve_attachment-Told api subject project_id bind_id cache =
      Ends-cases unavailable _ _
        (λ a h.
          let (resp, e, r) = resolved-Resolves _ a h in
          (resp, post-Told api _ _ account endpoint t resp cache e, r))
        (resolved-FailsBy _ (post-FailsBy api _ _ account endpoint t cache))
