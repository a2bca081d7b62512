-- ===== src/Services/Wire.antt =====
-- Requests, answers, and the calls that carry them.
use monok8s.Prelude.{ℕ, String, Option, List, Text}

-- The codes of `TRPCError` that the modelled code throws.
pub data Code : Type 0 where
  unauthorized forbidden internal_server_error bad_request not_found precondition_failed : Code

-- What a `throw` carries: a `TRPCError`, another `Error`, or a value that is no `Error`.
pub data Thrown : Type 0 where
  trpc_error : Code → Text → Thrown
  error : Text → Thrown
  other : Text → Thrown

pub data Result {ℓ} (A : Type ℓ) : Type ℓ where
  ok : A → Result A
  throw : Thrown → Result A

-- v1.ObjectReference and v1.SubjectReference; no relation is the empty text.
pub record ObjectRef : Type 0 where
  pub object_type : String
  pub object_id : Text

pub record SubjectReference : Type 0 where
  pub object : ObjectRef
  pub optional_relation : String

-- v1.ContextualizedCaveat, its context as the fields of the JSON object.
pub record Caveat : Type 0 where
  pub caveat_name : String
  pub context : Option (List (String × Text))

pub record Relationship : Type 0 where
  pub resource : ObjectRef
  pub relation : String
  pub subject : SubjectReference
  pub optional_caveat : Option Caveat

-- v1.RelationshipUpdate_Operation, as far as it is used.
pub data Operation : Type 0 where
  op_touch op_delete : Operation

pub record Update : Type 0 where
  pub operation : Operation
  pub relationship : Relationship

-- v1.CheckPermissionRequest; `consistency` is the token of `atLeastAsFresh`.
pub record CheckRequest : Type 0 where
  pub resource : ObjectRef
  pub permission : String
  pub subject : SubjectReference
  pub consistency : Option Text
  pub context : Option (List (String × Text))

-- v1.CheckPermissionResponse_Permissionship, and v1.LookupPermissionship, which has no `no_permission`.
pub data Permissionship : Type 0 where
  unspecified no_permission has_permission conditional_permission : Permissionship

pub record LookupResourcesRequest : Type 0 where
  pub resource_object_type : String
  pub permission : String
  pub subject : SubjectReference
  pub consistency : Option Text

pub record ResourceHit : Type 0 where
  pub resource_object_id : Text
  pub permissionship : Permissionship

pub record LookupSubjectsRequest : Type 0 where
  pub resource : ObjectRef
  pub permission : String
  pub subject_object_type : String
  pub consistency : Option Text

pub record ResolvedSubject : Type 0 where
  pub subject_object_id : Text
  pub permissionship : Permissionship

-- The answer's `subject` may be absent.
pub record SubjectHit : Type 0 where
  pub subject : Option ResolvedSubject

-- The options of `WorkflowClient.start`; `args` holds the fields of its one argument object.
pub record StartRequest : Type 0 where
  pub workflow_type : String
  pub task_queue : String
  pub workflow_id : Text
  pub args : List (String × Text)

-- A connection pool of pg, known by its identity.
abbrev pub PoolId : Type 0
PoolId = ℕ

-- A bound parameter of a query.
pub data Param : Type 0 where
  null : Param
  text : Text → Param
  number : ℕ → Param

pub record Query : Type 0 where
  pub pool : PoolId
  pub sql : Text
  pub params : List Param

-- Rows, as the interfaces of packages/db declare them. Dates are milliseconds.
pub record Tenant : Type 0 where
  pub id : Text
  pub slug : Text
  pub plan : Text
  pub created_at : ℕ

pub record User : Type 0 where
  pub id : Text
  pub tenant_id : Text
  pub zitadel_id : Text
  pub email : Text
  pub created_at : ℕ

pub record Group : Type 0 where
  pub id : Text
  pub tenant_id : Text
  pub name : Text
  pub parent_group_id : Option Text
  pub created_at : ℕ

pub record TemporaryGrant : Type 0 where
  pub id : Text
  pub tenant_id : Text
  pub subject_id : Text
  pub subject_type : Text
  pub role : Text
  pub granted_by : Text
  pub reason : Option Text
  pub expires_at : ℕ
  pub status : Text
  pub revoked_by : Option Text
  pub revoked_at : Option ℕ
  pub temporal_workflow_id : Option Text
  pub created_at : ℕ

-- What pg's driver makes of a timestamp: a Date, in milliseconds, or its text.
pub data CreatedAt : Type 0 where
  date : ℕ → CreatedAt
  printed : Text → CreatedAt

-- A row of audit_log; `metadata` is a JSON value.
pub record AuditLog {κ} (M : Type κ) : Type κ where
  pub id : Text
  pub tenant_id : Text
  pub principal_id : Text
  pub principal_type : Text
  pub action : Text
  pub target_kind : Text
  pub target_id : Option Text
  pub outcome : Text
  pub error_message : Option Text
  pub metadata : Option M
  pub created_at : CreatedAt

-- A `fetch`: the body is the empty text where there is none.
pub record HttpRequest : Type 0 where
  pub url : Text
  pub method : String
  pub body : Text

-- Every call that leaves the process.
pub data Call : Type 0 where
  check_permission : CheckRequest → Call
  lookup_resources : LookupResourcesRequest → Call
  lookup_subjects : LookupSubjectsRequest → Call
  write_relationships : List Update → Call
  start : StartRequest → Call
  -- A workflow, the name of a signal, and the fields of its payload.
  signal : Text → String → List (String × Param) → Call
  query : Query → Call
  -- A message to a NATS subject, over the connection that is opened first.
  publish : Text → Text → Call
  fetch : HttpRequest → Call
  random_uuid clock : Call

-- The calls made so far, the newest first.
abbrev pub Trace : Type 0
Trace = List Call

-- What the outside answers to a call, given the calls before it.
pub record Env : Type 0 where
  pub on_check : Trace → CheckRequest → Result Permissionship
  pub on_lookup_resources : Trace → LookupResourcesRequest → Result (List ResourceHit)
  pub on_lookup_subjects : Trace → LookupSubjectsRequest → Result (List SubjectHit)
  pub on_write : Trace → List Update → Result (Option Text)
  pub on_start : Trace → StartRequest → Result (Unit {0})
  pub on_signal : Trace → Text → String → List (String × Param) → Result (Unit {0})
  -- `fetch`, where the code does not read the response.
  pub on_fetch : Trace → HttpRequest → Result (Unit {0})
  pub on_query_tenants : Trace → Query → Result (List Tenant)
  pub on_query_users : Trace → Query → Result (List User)
  pub on_query_groups : Trace → Query → Result (List Group)
  pub on_query_grants : Trace → Query → Result (List TemporaryGrant)
  pub on_query_ids : Trace → Query → Result (List Text)
  -- An INSERT without RETURNING.
  pub on_insert : Trace → Query → Result (Unit {0})
  pub on_publish : Trace → Text → Text → Result (Unit {0})
  pub on_uuid : Trace → Text
  -- `Date.now()` in milliseconds, and `toISOString` of such a time.
  pub on_clock : Trace → ℕ
  pub to_iso : ℕ → Text
