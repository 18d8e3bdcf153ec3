-- ===== src/Duckvis/Api/Tests.antt =====
-- The first token is refused with 401, and the second one is accepted.
use swanlake.Prelude.{
  ℕ, ◌≡◌, refl, Bool, true, [], ◌++◌, Option, none, some, pos, ◌==◌, if◌then◌else◌,
}
use swanlake.Text.{codes, bytes_eq}
use swanlake.Duckvis.{Outcome, ok, unavailable, Ends}
use swanlake.Duckvis.Sa.{Account, SaToken, TokenRequest, TokenReply, replied}
use swanlake.Duckvis.Api.{
  CallTimes, CheckRequest, CheckResponse, Posted, Reply, ResolveRequest, ResolveResponse,
  ResolvedAttachment, check_project, endpoint_url, project_check_request, resolve_attachment,
}
use swanlake.Duckvis.Api.FailClosed.{Told, Resolves, check_project-Told, resolve_attachment-Told}

abbrev account : Account
account = record {
  api_url = codes "https://api/";
  client_id = codes "swanlake";
  issuer = codes "iss";
  signer = record { claims_text = λ a b c d e. a ++ c; encode = λ s. s; sign = λ s. [] };
}

-- The endpoint numbers its tokens by the minute.
abbrev minutes : ℕ → TokenRequest → TokenReply
minutes at r = replied 200 (some (if at == 5 then codes "t1" else codes "t2", none))

abbrev times : CallTimes
times = record {
  fresh_at = 4;
  first_mint = record { now_secs = pos 4; minted_at = 5 };
  sent_at = 6;
  second_mint = record { now_secs = pos 7; minted_at = 7 };
  resent_at = 8;
}

abbrev checks : ℕ → Posted CheckRequest → Reply CheckResponse
checks at p =
    if bytes_eq p.token (codes "t2")
    then Reply.replied 200 (some (record { allow = true }))
    else Reply.replied 401 none

abbrev checked : Outcome Bool × Option SaToken
checked =
    check_project account minutes checks times (codes "ada") (codes "p1") (codes "Project.view")
      none

retried : checked.0 ≡ ok true
unfolding check_project bytes_eq
retried = refl

check_project-Told_example :
    Ends unavailable
      (λ b.
        Told checks
          (endpoint_url account minutes (codes "/v1/authz/check"))
          (project_check_request account minutes (codes "ada") (codes "p1") (codes "Project.view"))
          (record { allow = b }))
      checked.0
check_project-Told_example =
    check_project-Told account minutes times checks (codes "ada") (codes "p1")
      (codes "Project.view") none

abbrev resolves : ℕ → Posted ResolveRequest → Reply ResolveResponse
resolves at p = Reply.replied 200 (
    some (record {
      allow = true;
      attachment_id = some (codes "a1");
      name = some (codes "lake");
      kind = none;
      secret_config = some (codes "ATTACH 'x'");
      secrets = none;
    }))

abbrev resolution : Outcome (Option ResolvedAttachment) × Option SaToken
resolution =
    resolve_attachment account minutes resolves times (codes "ada") (codes "p1") (codes "b1") none

resolve_attachment-Told_example :
    Ends unavailable
      (λ a.
        (resp : ResolveResponse) × Told resolves
          (endpoint_url account minutes (codes "/v1/authz/resolve-attachment"))
          (record { subject = codes "ada"; project_id = codes "p1"; bind_id = codes "b1" })
          resp
        × Resolves account minutes times resp a)
      resolution.0
resolve_attachment-Told_example =
    resolve_attachment-Told account minutes times resolves (codes "ada") (codes "p1") (codes "b1")
      none
