-- ===== src/Api/Events/Handshake.antt =====
-- Which tenant a client is checked against when it subscribes to a workflow.
use monok8s.Prelude.{
  arith, ◌≡◌, refl, ap, sym, ◌∙◌, ◌⊎◌, inl, inr, true, false, Bool-cases, none, some, Option-cases,
  ◌∷◌, ◌++◌, Text, lit, all, is_blank,
}
use monok8s.Services.{Env, Thrown, throw, Trace}
use monok8s.Auth.Roles.{TenantPermission}
use monok8s.Auth.Spice.{can_on_tenant}
use monok8s.Auth.Workflow.{tenant_prefix, parse_tenant_from_workflow_id, can_on_workflow}
use monok8s.Auth.Workflow.Uuid.{IsUuid, dash}
use monok8s.Auth.Workflow.Parsing.{
  prefix-workflow_id, can_on_workflow-tenant, can_on_workflow-template,
}
use monok8s.Api.Events.Requests.{
  Input, object, no_object, no_input, no_workflow_id, suffix_matches, matches_workflow_id,
  parse_workflow_id_input, handshake, in_suffix,
}

module _ (env : Env) (user_id : Text) where
  -- The input carries an ID that names a tenant, and the handshake is the check for `read` on it.
  abbrev pub ChecksTenant : Input → Trace → Type 0
  ChecksTenant input h =
      (wid t : Text) × ((input ≡ object (some wid))
        × ((parse_tenant_from_workflow_id wid ≡ some t)
            × (handshake env user_id input h
                ≡ can_on_tenant env user_id TenantPermission.read t none none h)))

  -- The handshake fails and calls nothing.
  abbrev pub Refuses : Input → Trace → Type 0
  Refuses input h = (e : Thrown) × (handshake env user_id input h ≡ (throw e, h))

  parsed :
      (wid : Text)
      → matches_workflow_id wid ≡ true
      → (t : Text) × (parse_tenant_from_workflow_id wid ≡ some t)
  unfolding matches_workflow_id parse_tenant_from_workflow_id
  parsed wid e = elim (Option-cases (tenant_prefix wid)) [
    | inl n ↦
        (let bad : suffix_matches none ≡ true = sym (ap suffix_matches n) ∙ e in
          absurd (grind arith))
    | inr ((t, rest), s) ↦ (t, rw s refl)
  ]

  handshake-matching :
      (wid : Text) (h : Trace)
      → matches_workflow_id wid ≡ true
      → handshake env user_id (object (some wid)) h ≡ can_on_workflow env user_id wid none h
  unfolding handshake parse_workflow_id_input
  handshake-matching wid h e = rw e refl

  handshake-other :
      (wid : Text) (h : Trace)
      → matches_workflow_id wid ≡ false
      → handshake env user_id (object (some wid)) h ≡ (throw no_workflow_id, h)
  unfolding handshake parse_workflow_id_input
  handshake-other wid h e = rw e refl

  -- Whatever a client sends to subscribe to a workflow: its handshake fails before any call, or asks
  -- SpiceDB for `read` on the tenant that the ID sent names, and answers as SpiceDB does.
  pub handshake-tenant : (input : Input) (h : Trace) → Refuses input h ⊎ ChecksTenant input h
  unfolding handshake parse_workflow_id_input
  handshake-tenant no_object h = inl (no_input, refl)
  handshake-tenant (object none) h = inl (no_workflow_id, refl)
  handshake-tenant (object (some wid)) h = elim (Bool-cases (matches_workflow_id wid)) [
    | inl b ↦
        (let (t, p) = parsed wid b in
          inr (
            wid,
            t,
            (
              refl,
              (
                p,
                handshake-matching wid h b
                    ∙ ap (λ m. m h) (can_on_workflow-tenant env user_id wid t none p),
              ),
            ),
          ))
    | inr b ↦ inl (no_workflow_id, handshake-other wid h b)
  ]

  template-matches :
      (t rest : Text)
      → IsUuid t
      → is_blank rest ≡ false
      → all in_suffix rest ≡ true
      → matches_workflow_id (lit "tnt-" ++ (t ++ (dash ∷ rest))) ≡ true
  unfolding matches_workflow_id
  template-matches t rest u b a = rw (prefix-workflow_id t rest u, b, a) refl

  -- A client that subscribes to a workflow whose ID is `tnt-${tenant}-${rest}`, with a UUID and letters,
  -- digits, hyphens or underscores, is let through by the input's parser, and its handshake is the
  -- check for `read` on that tenant: the same answer or failure after the same calls.
  pub handshake-template :
      (t rest : Text) (h : Trace)
      → IsUuid t
      → is_blank rest ≡ false
      → all in_suffix rest ≡ true
      → handshake env user_id (object (some (lit "tnt-" ++ (t ++ (dash ∷ rest))))) h
        ≡ can_on_tenant env user_id TenantPermission.read t none none h
  handshake-template t rest h u b a =
      handshake-matching (lit "tnt-" ++ (t ++ (dash ∷ rest))) h (template-matches t rest u b a)
      ∙ ap (λ m. m h) (can_on_workflow-template env user_id t rest none u)
