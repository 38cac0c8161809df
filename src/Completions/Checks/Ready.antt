-- ===== src/Completions/Checks/Ready.antt =====
-- What a request has that passes the checks of `openaiChat`, internal/web/server.go.
use m365_copilot2api.Sessions
use m365_copilot2api.Prelude.{
  ok, err, false, inl, inr, Result-cases, Option-cases, ok-injective, err-ne-ok, ◌≡◌, ◌<◌, List, [],
  sym, Text, Option, Bool, is_empty, arith, refl, Bool-cases, subst, trim_space, >>=-eq-ok, Result,
  ◌∷◌, ◌||◌,
}
use m365_copilot2api.Ledger.{AgentLedger}
use m365_copilot2api.Ledger.Tally.{build_agent_ledger}
use m365_copilot2api.Ledger.Control.{active_messages, can_continue}
use m365_copilot2api.Ledger.Control.Laws.{can_continue-none_iff}
use m365_copilot2api.Conversation.{validate_tool_conversation}
use m365_copilot2api.Conversation.Protocol.{Legal, validate_tool_conversation-Legal}
use m365_copilot2api.Completions.{Env, World, OaiReq, Attachment}
use m365_copilot2api.Completions.Checks.{
  Accepted, max_tool_rounds, normalize_legacy_tools, fill_session, check_conversation, check_prompt,
  check_request, Refusal, check, read_body, check_tone, identified, accept, check_rest,
  check_account, with_ids,
}
use m365_copilot2api.Message.{Message}
use m365_copilot2api.Completions.Prompt.{flatten_prompt_messages}
use m365_copilot2api.Accounts.Login.{AccountError, resolve_account}
use m365_copilot2api.Accounts.{AccountToken, first_non_empty}

-- The conversation is legal, its current turn is within the limit on rounds and waits for no result, there
-- is a text to send, and the account has both identifiers.
pub record IsReady (env : Env) (a : Accepted) : Type 0 where
  pub legal : Legal [] [] a.body.messages
  pub rounds :
      (build_agent_ledger env.ledger (active_messages a.body.messages)).tool_rounds
      < max_tool_rounds env
  pub resolved : (build_agent_ledger env.ledger (active_messages a.body.messages)).pending ≡ []
  pub whole_ledger : a.ledger ≡ build_agent_ledger env.ledger a.body.messages
  pub prompted : is_empty a.prompt ≡ false
  pub has_oid : is_empty a.account.oid ≡ false
  pub has_tid : is_empty a.account.tid ≡ false

max_tool_rounds-pos : (env : Env) → 0 < max_tool_rounds env
unfolding max_tool_rounds
max_tool_rounds-pos env = ground arith

messages-normalize : (body : OaiReq) → (normalize_legacy_tools body).messages ≡ body.messages
unfolding normalize_legacy_tools
messages-normalize body = refl

messages-fill :
    (s : Sessions.Store) (body : OaiReq) → (fill_session s body).messages ≡ body.messages
unfolding fill_session
messages-fill s body = ground arith

-- What the check of the conversation says of it.
abbrev Continues : Env → List Message → AgentLedger → Type 0
Continues env ms l =
    Legal [] [] ms
    × ((build_agent_ledger env.ledger (active_messages ms)).tool_rounds < max_tool_rounds env)
    × ((build_agent_ledger env.ledger (active_messages ms)).pending ≡ [])
    × (l ≡ build_agent_ledger env.ledger ms)

check_conversation-Continues :
    (env : Env) (body : OaiReq) (l : AgentLedger)
    → check_conversation env body ≡ ok l
    → Continues env body.messages l
unfolding check_conversation
check_conversation-Continues env body l h =
    let active = build_agent_ledger env.ledger (active_messages body.messages) in
    elim (Result-cases (validate_tool_conversation body.messages)) [
      | inr (e, bad) ↦ absurd (err-ne-ok _ _ (rw (bad, check_conversation) at h))
      | inl (s, valid) ↦ elim (Option-cases (can_continue active (max_tool_rounds env))) [
        | inr (r, bad) ↦ absurd (err-ne-ok _ _ (rw (valid, bad, check_conversation) at h))
        | inl goes ↦
            let (below, resolved) = (can_continue-none_iff active (max_tool_rounds env)).0 goes in
            (
              (validate_tool_conversation-Legal body.messages).0 (s, valid),
              ground (arith, below, max_tool_rounds-pos env),
              resolved,
              sym (ok-injective (rw (valid, goes, check_conversation) at h)),
            )
      ]
    ]

check_prompt-not_empty :
    (env : Env) (body : OaiReq) (prompt : Text) (files : List Attachment)
    → check_prompt env body ≡ ok (prompt, files)
    → is_empty prompt ≡ false
unfolding check_prompt
check_prompt-not_empty env body prompt files h =
    let t = trim_space (flatten_prompt_messages env body.messages body.attachments).0 in
    elim (Bool-cases (is_empty t)) [
      | inl blank ↦ absurd (err-ne-ok _ _ (rw (blank, check_prompt) at h))
      | inr said ↦
          subst (λ (x : Text × List Attachment). is_empty x.0 ≡ false)
            (ok-injective (rw (said, check_prompt) at h)) said
    ]

-- What is known of the request before its account is looked for.
abbrev Checked : Env → OaiReq × Text × AgentLedger × Text → Type 0
Checked env (body, tone, l, prompt) = Continues env body.messages l × (is_empty prompt ≡ false)

check_request-Checked :
    (env : Env) (is_post : Bool) (raw : Option Text) (x : OaiReq × Text × AgentLedger × Text)
    → check_request env is_post raw ≡ ok x
    → Checked env x
unfolding check_request
check_request-Checked env is_post raw x h =
    let (sent, read, after_body) = >>=-eq-ok (read_body env is_post raw) _ h in
    let (tone, toned, after_tone) = >>=-eq-ok (check_tone env sent) _ after_body in
    let (l, goes, after_ledger) =
      >>=-eq-ok (check_conversation env (normalize_legacy_tools sent)) _ after_tone in
    let ((prompt, files), prompted, last) =
      >>=-eq-ok (check_prompt env (normalize_legacy_tools sent)) _ after_ledger in
    subst (Checked env) (ok-injective last) (
      check_conversation-Continues env (normalize_legacy_tools sent) l goes,
      check_prompt-not_empty env (normalize_legacy_tools sent) prompt files prompted,
    )

identified-ids :
    (env : Env) (r : Result AccountError AccountToken) (acc : AccountToken)
    → identified env r ≡ ok acc
    → (is_empty acc.oid ≡ false) × (is_empty acc.tid ≡ false)
unfolding identified
identified-ids env (err e) acc h = absurd (err-ne-ok _ _ h)
identified-ids env (ok found) acc h =
    let a = with_ids env found in
    elim (Bool-cases (is_empty a.oid || is_empty a.tid)) [
      | inl lacks ↦ absurd (err-ne-ok _ _ (rw (lacks, identified) at h))
      | inr has ↦
          subst (λ (x : AccountToken). (is_empty x.oid ≡ false) × (is_empty x.tid ≡ false))
            (ok-injective (rw (has, identified) at h)) (ground arith)
    ]

accept-IsReady :
    (env : Env) (body : OaiReq) (tone : Text) (l : AgentLedger) (prompt : Text)
    (r : Result Refusal AccountToken) (a : Accepted)
    → Checked env (body, tone, l, prompt)
    → ((acc : AccountToken) → r ≡ ok acc → (is_empty acc.oid ≡ false) × (is_empty acc.tid ≡ false))
    → accept env body tone l prompt r ≡ ok a
    → IsReady env a
unfolding accept
accept-IsReady env body tone l prompt (err e) a c ids h = absurd (err-ne-ok _ _ h)
accept-IsReady env body tone l prompt (ok acc) a ((legal, below, resolved, whole), said) ids h =
    subst (IsReady env) (ok-injective h) (record {
      legal = legal;
      rounds = below;
      resolved = resolved;
      whole_ledger = whole;
      prompted = said;
      has_oid = (ids acc refl).0;
      has_tid = (ids acc refl).1;
    })

check_rest-IsReady :
    (env : Env) (r : Result Refusal (OaiReq × Text × AgentLedger × Text)) (w : World) (a : Accepted)
    → ((x : OaiReq × Text × AgentLedger × Text) → r ≡ ok x → Checked env x)
    → (check_rest env r w).1 ≡ ok a
    → IsReady env a
unfolding check_rest check_account
check_rest-IsReady env (err e) w a c h = absurd (err-ne-ok _ _ h)
check_rest-IsReady env (ok (body, tone, l, prompt)) w a c h =
    let filled = fill_session w.sessions body in
    let r =
      (resolve_account env.renewal (first_non_empty (filled.account_id ∷ filled.user ∷ []))
        w.accounts).1 in
    accept-IsReady env filled tone l prompt (identified env r) a
      (subst (λ ms. Continues env ms l × (is_empty prompt ≡ false))
        (sym (messages-fill w.sessions body)) (c (body, tone, l, prompt) refl))
      (identified-ids env r) h

-- A request that passes the checks has a conversation in which every call is answered, a current turn below
-- the limit on rounds, a text to send, and an account with both identifiers.
pub check-IsReady :
    (env : Env) (is_post : Bool) (raw : Option Text) (w : World) (a : Accepted)
    → (check env is_post raw w).1 ≡ ok a
    → IsReady env a
unfolding check
check-IsReady env is_post raw w a h =
    check_rest-IsReady env (check_request env is_post raw) w a
      (check_request-Checked env is_post raw) h
