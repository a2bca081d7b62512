-- ===== src/Cloud/Database/Instances.antt =====
-- What Kubernetes documents of creating and reading an object, and what the adapter makes of it.
use monok8s.Prelude.{
  ◌≡◌, refl, Bool, true, false, not, ◌&&◌, none, some, Text, lit, ◌++◌, nat_eq, arith,
}
use mathlib.Core.List.{append_cancel_left}
use monok8s.Services.{Result, ok, throw}
use monok8s.Cloud.{is_throw, after-throw, after-return, return}
use monok8s.Cloud.Database.{
  CnpgConfig, DatabaseHandle, ApiCall, Answer, rejected, answered, Method, post, get, is_ok,
  surface, clusters_url, cluster_url, cluster_of, build_handle, provision_instance,
  describe_instance,
}

-- A success with a body that can be read, and a status that is none of success.
abbrev pub grants : Answer → Bool
grants (rejected e) = false
grants (answered status text (ok _)) = is_ok status
grants (answered status text (throw e)) = is_ok status && nat_eq status 204

abbrev pub refuses : Answer → Bool
refuses (rejected e) = false
refuses (answered status text json) = not (is_ok status)

surface-grants :
    (m : Method) (target : Text) (a : Answer) → grants a ≡ true → surface m target a ≡ ok tt
unfolding surface
surface-grants m target (rejected e) g = ground arith
surface-grants m target (answered status text (ok _)) g = ground arith
surface-grants m target (answered status text (throw e)) g = ground arith

surface-refuses :
    (m : Method) (target : Text) (a : Answer)
    → refuses a ≡ true
    → is_throw (surface m target a) ≡ true
unfolding surface
surface-refuses m target (rejected e) g = refl
surface-refuses m target (answered status text json) g = ground arith

module _ {ℓ} {S : Type ℓ} (serve : ApiCall → S → Answer × S) (encode : Text → Text)
    (cfg : CnpgConfig) where
  abbrev pub creates : Text → S → Answer × S
  creates name s =
      serve
        (record {
          url = clusters_url cfg;
          method = post;
          token = cfg.token;
          body = some (cluster_of cfg name);
        })
        s

  abbrev pub reads : Text → S → Answer × S
  reads name s =
      serve
        (record {
          url = cluster_url cfg (encode name);
          method = get;
          token = cfg.token;
          body = none;
        })
        s

  -- The documented behaviour, of the names that a state of the server has.
  pub record IsApiServer (has : S → Text → Bool) : Type ℓ where
    pub creates_new :
        (s : S) (name : Text)
        → has s name ≡ false
        → let (a, s') = creates name s in (grants a ≡ true) × (has s' name ≡ true)
    pub keeps_old :
        (s : S) (name : Text)
        → has s name ≡ true
        → let (a, s') = creates name s in (refuses a ≡ true) × (has s' name ≡ true)
    pub reads_it :
        (s : S) (name : Text)
        → has s name ≡ true
        → let (a, s') = reads name s in (grants a ≡ true) × (has s' name ≡ true)
    pub reads_none :
        (s : S) (name : Text)
        → has s name ≡ false
        → let (a, s') = reads name s in (refuses a ≡ true) × (has s' name ≡ false)

  abbrev pub describing : Text → S → Result DatabaseHandle × S
  describing = describe_instance serve encode cfg

  abbrev pub provisioning : Text → Text → S → Result DatabaseHandle × S
  provisioning = provision_instance serve encode cfg

  -- Before, the cluster cannot be described; its provisioning returns a handle; then it is described by
  -- the same handle, and cannot be provisioned again.
  pub record Provisions (name region : Text) (s : S) : Type ℓ where
    pub made : S
    pub seen : S
    pub missing : is_throw (describing name s).0 ≡ true
    pub provisioned :
        provisioning name region (describing name s).1 ≡ (ok (build_handle cfg name), made)
    pub described : describing name made ≡ (ok (build_handle cfg name), seen)
    pub once : is_throw (provisioning name region seen).0 ≡ true

  module _ (has : S → Text → Bool) (laws : IsApiServer has) where
    -- With a server that creates and reads objects as Kubernetes documents: of a name that is not taken,
    -- `Provisions`.
    pub provision_instance-Provisions :
        (name region : Text) (s : S) → has s name ≡ false → Provisions name region s
    unfolding provision_instance describe_instance
    provision_instance-Provisions name region s n =
        let q0 = reads name s in
        let (g0, n0) = laws.reads_none s name n in
        let q1 = creates name q0.1 in
        let (g1, h1) = laws.creates_new q0.1 name n0 in
        let q2 = reads name q1.1 in
        let (g2, h2) = laws.reads_it q1.1 name h1 in
        let q3 = creates name q2.1 in
        let (g3, h3) = laws.keeps_old q2.1 name h2 in
        let target = cluster_url cfg (encode name) in
        record {
          made = q1.1;
          seen = q2.1;
          missing =
              after-throw (surface get target q0.0) q0.1 (λ _. return (build_handle cfg name))
                (surface-refuses get target q0.0 g0);
          provisioned =
              rw
                (
                  after-return (surface get target q0.0) q0.1 (build_handle cfg name),
                  surface-grants post (clusters_url cfg) q1.0 g1,
                )
                refl;
          described = rw (surface-grants get target q2.0 g2) refl;
          once =
              after-throw (surface post (clusters_url cfg) q3.0) q3.1
                (λ _. return (build_handle cfg name))
                (surface-refuses post (clusters_url cfg) q3.0 g3);
        }

-- Instances of different names have different IDs.
pub build_handle-id :
    (cfg : CnpgConfig) (a b : Text) → (build_handle cfg a).id ≡ (build_handle cfg b).id → a ≡ b
unfolding build_handle
build_handle-id cfg a b e =
    append_cancel_left (lit "/") a b
      (append_cancel_left cfg.namespace (lit "/" ++ a) (lit "/" ++ b) e)
